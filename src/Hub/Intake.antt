-- ===== src/Hub/Intake.antt =====
-- internal/hub/hub.go: what `Apply` makes of the user's entry with a snapshot that it takes. The
-- steps stand in the order of the source; each takes what was computed before it.
pub mod Hidden
pub mod Kept
use unibe_clan.Base.{
  ℕ, ◌+◌, ◌%◌, Bool, true, false, not, ◌&&◌, ◌||◌, Option, none, some, List, [], ◌∷◌, keep,
  if◌then◌else◌, ltb, ◌==◌ as nat_beq,
}
use unibe_clan.Base.Keys.{Text, text_beq, text_eq}
use unibe_clan.Base.Int.{ℤ}
use unibe_clan.Base.Map.{lookup, insert}
use unibe_clan.Base.Time.{Time, is_zero}
use unibe_clan.Model.{
  State, ok, signed_out, api_key, unavailable, unknown, RecentThread, RuntimeThread, Snapshot,
  Hashing,
}
use unibe_clan.Model.Names.{is_empty}
use unibe_clan.Hub.Entry.{
  ActivityRef, IdSet, has, Entry, is_consumer, is_ok, runtime_inventory_recent,
  snapshot_account_key, last_account_key,
}

-- The newest version that a process of the user was seen with.
unfoldable pub note_version : Snapshot → Entry → Entry
note_version s e = elim (s.codex_version_observed_at) [
  | none ↦ e
  | some observed_at ↦
      if not (is_empty s.codex_version)
        && (is_zero e.codex_version_at || ltb e.codex_version_at observed_at)
      then record e { codex_version = s.codex_version; codex_version_at = observed_at }
      else e
]

-- `activitySessionIDsLocked`, on what the activity source answers.
unfoldable pub activity_session_ids : Text → List ActivityRef → IdSet
activity_session_ids username [] = []
activity_session_ids username (a ∷ as_) =
    let rest = activity_session_ids username as_ in
    if text_beq a.username username && not (is_empty a.session_id)
    then insert a.session_id true rest
    else rest

-- `observed[thread.ThreadID] = thread`, for each thread in turn.
unfoldable pub index_runtime :
    List RuntimeThread → List (Text × RuntimeThread) → List (Text × RuntimeThread)
index_runtime [] m = m
index_runtime (t ∷ ts) m = index_runtime ts (insert t.thread_id t m)

unfoldable pub index_recent :
    List RecentThread → List (Text × RecentThread) → List (Text × RecentThread)
index_recent [] m = m
index_recent (t ∷ ts) m = index_recent ts (insert t.thread_id t m)

-- Add the keys of a map to a set.
unfoldable pub add_keys {ℓ} : {A : Type ℓ} → List (Text × A) → IdSet → IdSet
add_keys [] s = s
add_keys ((id, _) ∷ m) s = insert id true (add_keys m s)

unfoldable pub next_quarantine : Bool → Bool → List (Text × RuntimeThread) → IdSet → IdSet → IdSet
next_quarantine consumer_switch pending observed hooks quarantine =
    let present = keep (λ q. has q.0 observed || has q.0 hooks) quarantine in
    let loaded = if consumer_switch || pending then add_keys observed present else present in
    if consumer_switch then add_keys hooks loaded else loaded

-- The threads that are not quarantined.
unfoldable pub add_threads :
    IdSet → List (Text × RuntimeThread) → List (Text × RuntimeThread) → List (Text × RuntimeThread)
add_threads quarantine [] m = m
add_threads quarantine ((id, t) ∷ observed) m =
    let rest = add_threads quarantine observed m in
    if has id quarantine then rest else insert id t rest

-- A complete observation of the loaded threads.
unfoldable pub read_inventory : Bool → IdSet → Time → Snapshot → Entry → Entry
read_inventory consumer_switch hooks now s e =
    let observed = index_runtime s.runtime_threads [] in
    let quarantine =
      next_quarantine consumer_switch e.runtime_quarantine_pending observed hooks
        e.runtime_quarantine in
    record e {
      runtime_quarantine = quarantine;
      runtime_quarantine_pending =
          if consumer_switch || e.runtime_quarantine_pending
          then false
          else e.runtime_quarantine_pending;
      runtime_threads = add_threads quarantine observed e.runtime_threads;
      runtime_inventory_at = if consumer_switch then e.runtime_inventory_at else now;
    }

-- A change of the account without such an observation.
unfoldable pub miss_inventory : IdSet → Entry → Entry
miss_inventory hooks e = record e {
  runtime_quarantine_pending = true;
  runtime_quarantine = add_keys hooks e.runtime_quarantine;
}

-- The earlier inventory, where a failed read does not retain it.
abbrev pub clear_inventory : Bool → Entry → Entry
clear_inventory true e = e
clear_inventory false e = record e { runtime_threads = []; runtime_inventory_at = 0 }

-- The runtime inventory and the quarantine. `hooks` is what the activity source answers.
unfoldable pub take_inventory : Bool → List ActivityRef → Time → Snapshot → Entry → Entry
take_inventory consumer_switch hooks now s e =
    let consumes = is_consumer e.identity in
    let complete = is_ok s.state && s.runtime_threads_read in
    let ids =
      if consumes && (consumer_switch || complete)
      then activity_session_ids s.username hooks
      else [] in
    let retains =
      consumes
      && is_ok s.state
      && not consumer_switch
      && not s.runtime_threads_read
      && runtime_inventory_recent e now in
    let cleared = clear_inventory retains e in
    if not consumes
    then cleared
    else if complete
    then read_inventory consumer_switch ids now s cleared
    else if consumer_switch
    then miss_inventory ids cleared
    else cleared

-- Opaque runtime identifiers stay out of what is kept of a snapshot.
abbrev pub strip : Snapshot → Snapshot
strip s = record s { runtime_threads = []; runtime_threads_read = false }

abbrev pub next_version : ℕ → ℕ
next_version v = (v + 1) % 18_446_744_073_709_551_616

-- What belongs to an account only.
abbrev pub forget_account : Entry → Entry
forget_account e = record e {
  account_version = next_version e.account_version;
  lifetime_tokens = none;
  lifetime_at = 0;
  recent_threads = [];
}

unfoldable pub note_lifetime : Snapshot → Entry → Entry
note_lifetime s e = elim (s.lifetime_tokens) [
  | none ↦ e
  | some tokens ↦
      if s.lifetime_tokens_read
      then record e { lifetime_tokens = some tokens; lifetime_at = s.observed_at }
      else e
]

unfoldable pub note_recent : Snapshot → Entry → Entry
note_recent s e =
    if s.recent_threads_read
    then record e { recent_threads = index_recent s.recent_threads [] }
    else e

module _ (hashing : Hashing) where
  unfoldable pub new_account : Snapshot → Text
  new_account s = if is_ok s.state then snapshot_account_key hashing s else []

  unfoldable pub changes_consumer : Snapshot → Entry → Bool
  changes_consumer s e =
      let prior = last_account_key hashing e.last_good in
      is_consumer e.identity
      && not (is_empty prior)
      && not (is_empty (new_account s))
      && not (text_beq prior (new_account s))

  -- The case of a snapshot in state ok. `prior` is the account before it.
  unfoldable pub take_good : Text → Time → Snapshot → Entry → Entry
  take_good prior now s e =
      let fresh =
        if not (is_empty prior) && not (text_beq prior (new_account s))
        then forget_account e
        else e in
      note_recent s (
        note_lifetime s (record fresh {
          last_good = some s;
          last_good_at = some now;
          membership = if is_consumer fresh.identity then new_account s else fresh.membership;
        }))

  unfoldable pub take_signed_out : Entry → Entry
  take_signed_out e = record (forget_account e) {
    membership = if is_consumer e.identity then [] else e.membership;
  }

  -- The `switch` over the state.
  unfoldable pub take_state : Text → Time → Snapshot → Entry → Entry
  take_state prior now s e = elim (s.state) [
    | ok ↦ take_good prior now s e
    | signed_out ↦ take_signed_out e
    | api_key ↦ take_signed_out e
    | unavailable ↦ e
    | unknown _ ↦ e
  ]

  unfoldable pub take_snapshot : List ActivityRef → Time → Snapshot → Entry → Entry
  take_snapshot hooks now s e =
      let inventoried = take_inventory (changes_consumer s e) hooks now s (note_version s e) in
      take_state (last_account_key hashing e.last_good) now (strip s)
        (record inventoried { current = strip s; last_seen_at = now })
