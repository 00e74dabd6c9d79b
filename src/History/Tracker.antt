-- ===== src/History/Tracker.antt =====
-- internal/history/history.go: the tracker of weekly windows, its retention and its persistence. A
-- method takes the tracker, the clock's reading and the outcomes of the file writes it makes, and
-- returns the new tracker; the mutex makes each method one step. Maps are association lists, in any
-- order. A time before the year 1 does not occur: the cutoff stops there.
pub mod Keys
pub mod Valid
pub mod Persist
pub mod Commit
pub mod Emptied
pub mod Retention
pub mod Prune
use unibe_clan.Base.{
  ℕ, ◌+◌, ◌-◌, ◌/◌, ◌%◌, Bool, true, false, not, ◌&&◌, ◌||◌, Option, none, some, List, [], ◌∷◌,
  ◌++◌, all, keep, map, length, if◌then◌else◌, ltb, leb, ◌==◌ as nat_beq,
}
use unibe_clan.Base.Keys.{Text, text_eq, text_lt}
use unibe_clan.Base.Int.{ltb_ℤ}
use unibe_clan.Base.Map.{lookup, insert, delete}
use unibe_clan.Base.Sort.{sort_by}
use unibe_clan.Base.Time.{Time, is_zero, unix}
use unibe_clan.History.Windows.{ResetWindow, reset_timestamp_settled, valid_account_key}
use unibe_clan.History.Adjustments.{StoredAdjustment, valid_adjustment, max_adjustments}
use unibe_clan.History.Events.{DiskAccount, ResetEvent, append_event, event_of, valid_account}

pub record Candidate : Type 0 where
  pub window : ResetWindow
  pub first_seen_at : Time
  pub last_seen_at : Time
  pub observations : ℕ

-- `in_memory` says that `path` is empty.
pub record Tracker : Type 0 where
  pub in_memory : Bool
  pub retention : ℕ
  pub order : List Text
  pub accounts : List (Text × DiskAccount)
  pub adjustments : List (Text × List StoredAdjustment)
  pub candidates : List (Text × Candidate)
  pub revision : ℕ
  pub core_revision : ℕ
  pub tracking_since : Time
  pub adjustments_tracking_since : Time
  pub dirty : Bool
  pub adjustments_dirty : Bool
  pub degraded : Bool

abbrev pub max_history_accounts : ℕ
max_history_accounts = 128

-- A lookup of a missing key yields the zero value.
abbrev pub empty_account : DiskAccount
empty_account = record { active = none; events = [] }

unfoldable pub account_of : Text → List (Text × DiskAccount) → DiskAccount
account_of key accounts = elim (lookup key accounts) [ none ↦ empty_account | some a ↦ a ]

unfoldable pub adjustments_of : Text → List (Text × List StoredAdjustment) → List StoredAdjustment
adjustments_of key adjustments = elim (lookup key adjustments) [ none ↦ [] | some s ↦ s ]

-- `revision++` on a uint64
abbrev pub next_revision : ℕ → ℕ
next_revision r = (r + 1) % 18_446_744_073_709_551_616

-- The keys of a map, in its order.
unfoldable pub keys {ℓ} : {V : Type ℓ} → List (Text × V) → List Text
keys m = map (λ e. e.0) m

unfoldable pub ensure_account : Text → Tracker → Tracker × Bool
ensure_account key t =
    if not (valid_account_key key) then (t, false) else elim (lookup key t.accounts) [
      | some _ ↦ (t, false)
      | none ↦ if leb max_history_accounts (length t.accounts) then (t, false) else (
        record t {
          accounts = insert key empty_account t.accounts;
          adjustments = insert key [] t.adjustments;
          order = sort_by text_lt (t.order ++ (key ∷ []));
        },
        true,
      )
    ]

abbrev pub main_disk_schema_version : ℕ
main_disk_schema_version = 2

abbrev pub adjustment_disk_schema_version : ℕ
adjustment_disk_schema_version = 2

pub record DiskState : Type 0 where
  pub schema_version : ℕ
  pub revision : ℕ
  pub tracking_since : Time
  pub accounts : List (Text × DiskAccount)

pub record AdjustmentDiskState : Type 0 where
  pub schema_version : ℕ
  pub revision : ℕ
  pub tracking_since : Time
  pub accounts : List (Text × List StoredAdjustment)

unfoldable pub validate_disk_state : DiskState → Bool
validate_disk_state d =
    not (
      not (nat_beq d.schema_version main_disk_schema_version)
      || nat_beq d.revision 0
      || is_zero d.tracking_since
      || ltb max_history_accounts (length d.accounts))
    && all (λ e. valid_account_key e.0 && valid_account e.1) d.accounts

unfoldable pub validate_adjustment_disk_state : AdjustmentDiskState → Bool
validate_adjustment_disk_state d =
    not (
      not (nat_beq d.schema_version adjustment_disk_schema_version)
      || nat_beq d.revision 0
      || is_zero d.tracking_since
      || ltb max_history_accounts (length d.accounts))
    && all
        (λ e. valid_account_key e.0 && leb (length e.1) max_adjustments && all valid_adjustment e.1)
        d.accounts

-- The loops of the two writers over `order`; the entries of a map come in any order.
unfoldable pub ordered_accounts : List Text → List (Text × DiskAccount) → List (Text × DiskAccount)
ordered_accounts [] accounts = []
ordered_accounts (k ∷ ks) accounts = insert k (account_of k accounts) (ordered_accounts ks accounts)

unfoldable pub ordered_adjustments :
    List Text → List (Text × List StoredAdjustment) → List (Text × List StoredAdjustment)
ordered_adjustments [] adjustments = []
ordered_adjustments (k ∷ ks) adjustments =
    insert k (adjustments_of k adjustments) (ordered_adjustments ks adjustments)

abbrev pub disk_state : Tracker → DiskState
disk_state t = record {
  schema_version = main_disk_schema_version;
  revision = t.revision;
  tracking_since = t.tracking_since;
  accounts = ordered_accounts t.order t.accounts;
}

abbrev pub adjustment_disk_state : Tracker → AdjustmentDiskState
adjustment_disk_state t = record {
  schema_version = adjustment_disk_schema_version;
  revision = t.revision;
  tracking_since = t.adjustments_tracking_since;
  accounts = ordered_adjustments t.order t.adjustments;
}

-- Each writer answers whether it succeeded; `written` is the outcome of `writeState`.
unfoldable pub persist_history : Bool → Tracker → Tracker × Bool
persist_history written t =
    if not (validate_disk_state (disk_state t))
    then (t, false)
    else if not written
    then (t, false)
    else (record t { core_revision = t.revision; dirty = false }, true)

unfoldable pub persist_adjustments : Bool → Tracker → Tracker × Bool
persist_adjustments written t =
    if not (validate_adjustment_disk_state (adjustment_disk_state t))
    then (t, false)
    else if not written
    then (t, false)
    else (record t { adjustments_dirty = false }, true)

-- What the writes of the two files answer.
pub record Writes : Type 0 where
  pub adjustments_written : Bool
  pub history_written : Bool

-- The second half of `persistDirtyLocked`.
unfoldable pub persist_core : Bool → Tracker → Tracker × Bool
persist_core written t = if t.dirty then persist_history written t else (t, true)

unfoldable pub persist_dirty : Writes → Tracker → Tracker × Bool
persist_dirty io t =
    if t.adjustments_dirty
    then (let (t1, fine) = persist_adjustments io.adjustments_written t in
        if not fine then (t1, false) else persist_core io.history_written t1)
    else persist_core io.history_written t

-- The first statement of `commitChangesLocked`.
unfoldable pub mark_changes : Bool → Bool → Tracker → Tracker
mark_changes history_changed adjustments_changed t =
    if history_changed || adjustments_changed
    then record t {
      revision = next_revision t.revision;
      dirty = t.dirty || history_changed;
      adjustments_dirty = t.adjustments_dirty || adjustments_changed;
    }
    else t

-- The rest of `commitChangesLocked`.
unfoldable pub flush : Writes → Tracker → Tracker
flush io t =
    if not t.dirty && not t.adjustments_dirty
    then t
    else if t.in_memory
    then record t {
      core_revision = if t.dirty then t.revision else t.core_revision;
      dirty = false;
      adjustments_dirty = false;
      degraded = false;
    }
    else (let (t1, fine) = persist_dirty io t in
        if not fine then record t1 { degraded = true } else record t1 { degraded = false })

unfoldable pub commit_changes : Writes → Bool → Bool → Tracker → Tracker
commit_changes io history_changed adjustments_changed t =
    flush io (mark_changes history_changed adjustments_changed t)

-- The first loop of `pruneLocked`, on one account, in two halves.
unfoldable pub settle : Time → DiskAccount → DiskAccount × Bool
settle now a = elim (a.active) [
  | none ↦ (a, false)
  | some w ↦
      if reset_timestamp_settled w.resets_at (unix now)
      then (record { active = none; events = append_event a.events (event_of now w) }, true)
      else (a, false)
]

unfoldable pub expire_events : Time → DiskAccount → DiskAccount × Bool
expire_events cutoff_time a =
    let kept = keep (λ (e : ResetEvent). not (ltb_ℤ e.resets_at (unix cutoff_time))) a.events in
    (record { active = a.active; events = kept }, ltb (length kept) (length a.events))

unfoldable pub prune_account : Time → Time → DiskAccount → DiskAccount × Bool
prune_account now cutoff_time a =
    let (a1, settled) = settle now a in
    let (a2, expired) = expire_events cutoff_time a1 in (a2, settled || expired)

unfoldable pub prune_accounts :
    Time → Time → List (Text × DiskAccount) → List (Text × DiskAccount) × Bool
prune_accounts now cutoff_time [] = ([], false)
prune_accounts now cutoff_time ((k, a) ∷ m) =
    let (rest, changed) = prune_accounts now cutoff_time m in
    let (a1, changed1) = prune_account now cutoff_time a in ((k, a1) ∷ rest, changed1 || changed)

-- The second loop.
unfoldable pub recent_adjustments : Time → List StoredAdjustment → List StoredAdjustment
recent_adjustments cutoff_time adjustments =
    keep (λ s. not (ltb s.adjustment.detected_at cutoff_time)) adjustments

unfoldable pub prune_adjustments :
    Time → List (Text × List StoredAdjustment) → List (Text × List StoredAdjustment) × Bool
prune_adjustments cutoff_time [] = ([], false)
prune_adjustments cutoff_time ((k, s) ∷ m) =
    let (rest, changed) = prune_adjustments cutoff_time m in
    let kept = recent_adjustments cutoff_time s in
    ((k, kept) ∷ rest, ltb (length kept) (length s) || changed)

-- The third loop: the candidates that stay.
unfoldable pub keeps_candidate : Time → Time → Candidate → Bool
keeps_candidate now cutoff_time c =
    not (reset_timestamp_settled c.window.resets_at (unix now) || ltb c.last_seen_at cutoff_time)

-- Whether `pruneEmptyAccountsLocked` keeps an account.
unfoldable pub keeps_account : Tracker → Text × DiskAccount → Bool
keeps_account t (k, a) = elim (a.active) [
  | some _ ↦ true
  | none ↦ elim (a.events) [
    | _ ∷ _ ↦ true
    | [] ↦ elim (adjustments_of k t.adjustments) [
      | _ ∷ _ ↦ true
      | [] ↦ elim (lookup k t.candidates) [ some _ ↦ true | none ↦ false ]
    ]
  ]
]

-- `delete` of every account that goes.
unfoldable pub drop_adjustments :
    Tracker → List (Text × DiskAccount) → List (Text × List StoredAdjustment)
drop_adjustments t [] = t.adjustments
drop_adjustments t ((k, a) ∷ m) =
    let rest = drop_adjustments t m in if keeps_account t (k, a) then rest else delete k rest

unfoldable pub prune_empty_accounts : Tracker → Tracker × Bool
prune_empty_accounts t =
    let kept = keep (keeps_account t) t.accounts in
    if not (ltb (length kept) (length t.accounts)) then (t, false) else (
      record t {
        accounts = kept;
        adjustments = drop_adjustments t t.accounts;
        order = sort_by text_lt (keys kept);
      },
      true,
    )

-- `now.Add(-t.retention)`
abbrev pub cutoff_of : Time → Tracker → Time
cutoff_of now t = now - t.retention

-- `pruneLocked` before its last statement.
unfoldable pub prune_entries : Time → Tracker → Tracker
prune_entries now t = record t {
  accounts = (prune_accounts now (cutoff_of now t) t.accounts).0;
  adjustments = (prune_adjustments (cutoff_of now t) t.adjustments).0;
  candidates = keep (λ e. keeps_candidate now (cutoff_of now t) e.1) t.candidates;
}

unfoldable pub prune : Time → Tracker → Tracker × Bool × Bool
prune now t =
    let history_changed = (prune_accounts now (cutoff_of now t) t.accounts).1 in
    let adjustments_changed = (prune_adjustments (cutoff_of now t) t.adjustments).1 in
    let (t1, emptied) = prune_empty_accounts (prune_entries now t) in
    (t1, history_changed || emptied, adjustments_changed || emptied)
