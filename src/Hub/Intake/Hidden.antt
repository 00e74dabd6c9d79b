-- ===== src/Hub/Intake/Hidden.antt =====
-- What holds of a user's entry between two calls, and that a snapshot that is taken keeps it.
use unibe_clan.Base.{
  ◌≡◌, ◌⊎◌, refl, Bool, true, false, not, ◌&&◌, some, List, [], ◌∷◌, arith, if◌then◌else◌,
}
use unibe_clan.Base.Keys.{Text, text_beq_iff, text_eq}
use unibe_clan.Base.Map.{lookup, lookup-insert}
use unibe_clan.Base.Time.{Time}
use unibe_clan.Model.{ok, RuntimeThread, Snapshot, Hashing}
use unibe_clan.Hub.Entry.{ActivityRef, IdSet, has, Entry, is_consumer, is_ok, last_account_key}
use unibe_clan.Hub.Intake.{
  index_runtime, add_threads, read_inventory, miss_inventory, clear_inventory, take_inventory,
}

-- No thread that is kept is quarantined.
abbrev pub AreHidden : IdSet → List (Text × RuntimeThread) → Type 0
AreHidden quarantine threads = (id : Text) → has id threads ≡ true → has id quarantine ≡ false

-- The runtime part of an entry: quarantined sessions are not kept; while a boundary read is awaited
-- nothing is kept and no inventory counts as recent; an anchor keeps nothing.
pub record RuntimeIsHidden (e : Entry) : Type 0 where
  pub hidden : AreHidden e.runtime_quarantine e.runtime_threads
  pub awaiting :
      e.runtime_quarantine_pending ≡ true → (e.runtime_threads ≡ []) × (e.runtime_inventory_at ≡ 0)
  pub anchor : is_consumer e.identity ≡ false → e.runtime_threads ≡ []

-- A last good snapshot is in state ok and without runtime identifiers.
pub record GoodIsStripped (s : Snapshot) : Type 0 where
  pub state : s.state ≡ ok
  pub threads : s.runtime_threads ≡ []

-- The account part: no runtime identifier stands in a snapshot that is kept, and a consumer is a
-- member of the account of the last good snapshot, or of none; an anchor is a member of none.
pub record AccountIsKept (hashing : Hashing) (e : Entry) : Type 0 where
  pub stripped : e.current.runtime_threads ≡ []
  pub good : (s : Snapshot) → e.last_good ≡ some s → GoodIsStripped s
  pub member :
      (e.membership ≡ [])
      ⊎ ((is_consumer e.identity ≡ true) × (last_account_key hashing e.last_good ≡ e.membership))

-- A current snapshot in state ok is the last good one.
abbrev pub LatestIsKept : Entry → Type 0
LatestIsKept e = e.current.state ≡ ok → e.last_good ≡ some e.current

pub record EntryIsValid (hashing : Hashing) (e : Entry) : Type 0 where
  pub runtime : RuntimeIsHidden e
  pub account : AccountIsKept hashing e

add_threads-AreHidden :
    (quarantine : IdSet) (observed m : List (Text × RuntimeThread))
    → AreHidden quarantine m
    → AreHidden quarantine (add_threads quarantine observed m)
unfolding add_threads
add_threads-AreHidden quarantine [] m h id shown = h id shown
add_threads-AreHidden quarantine ((j, t) ∷ observed) m h id shown = ground (
  arith,
  text_beq_iff j id,
  lookup-insert j id t (add_threads quarantine observed m),
  add_threads-AreHidden quarantine observed m h id,
)

nothing-AreHidden :
    (quarantine : IdSet) (threads : List (Text × RuntimeThread))
    → threads ≡ []
    → AreHidden quarantine threads
unfolding lookup
nothing-AreHidden quarantine threads none_kept id shown = ground (arith, none_kept, shown)

read_inventory-RuntimeIsHidden :
    (switch : Bool) (hooks : IdSet) (now : Time) (s : Snapshot) (e : Entry)
    → e.runtime_threads ≡ []
    → is_consumer e.identity ≡ true
    → RuntimeIsHidden (read_inventory switch hooks now s e)
unfolding read_inventory
read_inventory-RuntimeIsHidden switch hooks now s e cleared consumes = record {
  hidden =
      add_threads-AreHidden _ (index_runtime s.runtime_threads []) e.runtime_threads
        (nothing-AreHidden _ e.runtime_threads cleared);
  awaiting = λ pending. ground (arith, pending);
  anchor = λ anchored. ground (arith, anchored, consumes);
}

-- Nothing is kept, and the identity is the same.
pub cleared-RuntimeIsHidden :
    (e : Entry) → e.runtime_threads ≡ [] → e.runtime_inventory_at ≡ 0 → RuntimeIsHidden e
cleared-RuntimeIsHidden e cleared unread = record {
  hidden = nothing-AreHidden _ e.runtime_threads cleared;
  awaiting = λ _. (cleared, unread);
  anchor = λ _. cleared;
}

miss_inventory-RuntimeIsHidden :
    (hooks : IdSet) (e : Entry)
    → e.runtime_threads ≡ []
    → e.runtime_inventory_at ≡ 0
    → RuntimeIsHidden (miss_inventory hooks e)
unfolding miss_inventory
miss_inventory-RuntimeIsHidden hooks e cleared unread = cleared-RuntimeIsHidden _ cleared unread

clear_inventory-RuntimeIsHidden :
    (retains : Bool) (e : Entry) → RuntimeIsHidden e → RuntimeIsHidden (clear_inventory retains e)
clear_inventory-RuntimeIsHidden true e v = v
clear_inventory-RuntimeIsHidden false e v = cleared-RuntimeIsHidden _ refl refl

-- The branches of `take_inventory`, by what they test. What is retained is not read or missed.
branch-RuntimeIsHidden :
    (consumes complete switch retains : Bool) (hooks : IdSet) (now : Time) (s : Snapshot)
    (e : Entry)
    → RuntimeIsHidden e
    → is_consumer e.identity ≡ consumes
    → (retains ≡ true → complete ≡ false)
    → (retains ≡ true → switch ≡ false)
    → RuntimeIsHidden (
        if not consumes
        then clear_inventory retains e
        else if complete
        then read_inventory switch hooks now s (clear_inventory retains e)
        else if switch
        then miss_inventory hooks (clear_inventory retains e)
        else clear_inventory retains e)
branch-RuntimeIsHidden false complete switch retains hooks now s e v i h k =
    clear_inventory-RuntimeIsHidden retains e v
branch-RuntimeIsHidden true true switch true hooks now s e v i h k = ground (arith, h)
branch-RuntimeIsHidden true true switch false hooks now s e v i h k =
    read_inventory-RuntimeIsHidden switch hooks now s (clear_inventory false e) refl i
branch-RuntimeIsHidden true false true true hooks now s e v i h k = ground (arith, k)
branch-RuntimeIsHidden true false true false hooks now s e v i h k =
    miss_inventory-RuntimeIsHidden hooks (clear_inventory false e) refl refl
branch-RuntimeIsHidden true false false retains hooks now s e v i h k =
    clear_inventory-RuntimeIsHidden retains e v

pub take_inventory-RuntimeIsHidden :
    (switch : Bool) (hooks : List ActivityRef) (now : Time) (s : Snapshot) (e : Entry)
    → RuntimeIsHidden e
    → RuntimeIsHidden (take_inventory switch hooks now s e)
unfolding take_inventory
take_inventory-RuntimeIsHidden switch hooks now s e v =
    branch-RuntimeIsHidden (is_consumer e.identity) (is_ok s.state && s.runtime_threads_read) switch
      _ _ now s e v refl (λ retains. ground (arith, retains)) (λ retains. ground (arith, retains))
