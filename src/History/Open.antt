-- ===== src/History/Open.antt =====
-- internal/history/history.go: `Open`, as `open_tracker`. What the reading of the two files answers, and the outcome of
-- the writes, are arguments; so is the clock. While a history is loaded it has no candidates.
pub mod Written
pub mod Loads
mod Tests
use unibe_clan.Base.{
  ℕ, ◌*◌, Bool, true, false, not, ◌&&◌, ◌||◌, Option, none, some, List, [], ◌∷◌, ◌++◌, map,
  if◌then◌else◌, ltb,
}
use unibe_clan.Base.Keys.{Text, text_eq, text_lt}
use unibe_clan.Base.Int.{ℤ, pos, ltb_ℤ, pos_part}
use unibe_clan.Base.Map.{lookup, insert}
use unibe_clan.Base.Result.{Result, ok, err}
use unibe_clan.Base.Sort.{sort_by}
use unibe_clan.Base.Time.{Time, second}
use unibe_clan.History.Adjustments.{StoredAdjustment, sanitize_jitter}
use unibe_clan.History.Events.{DiskAccount}
use unibe_clan.History.Reconcile.{reconcile_account}
use unibe_clan.History.Tracker.{
  Tracker, DiskState, AdjustmentDiskState, Writes, empty_account, adjustments_of, keys,
  validate_disk_state, validate_adjustment_disk_state, next_revision, persist_dirty, prune,
}

pub data OpenError : Type 0 where
  bad_retention relative_path cannot_load_history cannot_load_adjustments cannot_compact : OpenError

-- What `path` is.
pub data Location : Type 0 where
  nowhere relative absolute : Location

-- What `loadState` and `loadAdjustmentState` answer: no such file, another error, or a state.
pub data Loaded {ℓ} (A : Type ℓ) : Type ℓ where
  missing unreadable : Loaded A
  found : A → Loaded A

abbrev pub day : ℕ
day = 86_400 * second

abbrev pub blank : Bool → ℕ → Tracker
blank in_memory retention = record {
  in_memory = in_memory;
  retention = retention;
  order = [];
  accounts = [];
  adjustments = [];
  candidates = [];
  revision = 0;
  core_revision = 0;
  tracking_since = 0;
  adjustments_tracking_since = 0;
  dirty = false;
  adjustments_dirty = false;
  degraded = false;
}

-- The loop over the accounts of the history, and what is taken from its header.
abbrev pub take_history : DiskState → Tracker → Tracker
take_history d t = record t {
  revision = d.revision;
  core_revision = d.revision;
  tracking_since = d.tracking_since;
  accounts = d.accounts;
  adjustments = map (λ e. (e.0, [])) d.accounts;
  order = sort_by text_lt (keys d.accounts);
}

-- The history file, and whether the history is to be written.
unfoldable pub load_history : Time → Loaded DiskState → Tracker → Result OpenError (Tracker × Bool)
load_history now missing t = ok (record t { tracking_since = now }, true)
load_history now unreadable t = err cannot_load_history
load_history now (found d) t =
    if not (validate_disk_state d) then err cannot_load_history else ok (take_history d t, false)

-- The loop over the accounts of the sidecar, and whether it adds an account.
unfoldable pub take_adjustments : List (Text × List StoredAdjustment) → Tracker → Tracker × Bool
take_adjustments [] t = (t, false)
take_adjustments ((key, stored) ∷ rest) t =
    let given : Tracker = record t { adjustments = insert key stored t.adjustments } in
    elim (lookup key t.accounts) [
      | some _ ↦ take_adjustments rest given
      | none ↦
          let (added, _) = take_adjustments rest (record given {
            accounts = insert key empty_account t.accounts;
            order = t.order ++ (key ∷ []);
          }) in
          (added, true)
    ]

-- The loop over the accounts that the sidecar may lack, and whether it lacks one.
unfoldable pub fill_adjustments :
    List (Text × List StoredAdjustment) → List (Text × DiskAccount) → Tracker → Tracker × Bool
fill_adjustments stored [] t = (t, false)
fill_adjustments stored ((key, _) ∷ accounts) t = elim (lookup key stored) [
  | some _ ↦ fill_adjustments stored accounts t
  | none ↦
      let (filled, _) =
        fill_adjustments stored accounts (record t { adjustments = insert key [] t.adjustments }) in
      (filled, true)
]

-- What is taken from the header of the sidecar.
abbrev pub take_header : AdjustmentDiskState → Tracker → Tracker
take_header d t = record t {
  revision = if ltb t.revision d.revision then d.revision else t.revision;
  adjustments_tracking_since = d.tracking_since;
}

-- The sidecar, and whether the history and the adjustments are to be written.
unfoldable pub load_adjustments :
    Time → Loaded AdjustmentDiskState → Bool → Tracker → Result OpenError (Tracker × Bool × Bool)
load_adjustments now missing history_changed t =
    ok (record t { adjustments_tracking_since = now }, history_changed, true)
load_adjustments now unreadable history_changed t = err cannot_load_adjustments
load_adjustments now (found d) history_changed t =
    if not (validate_adjustment_disk_state d)
    then err cannot_load_adjustments
    else (let (taken, added) = take_adjustments d.accounts (take_header d t) in
        let (filled, lacking) = fill_adjustments d.accounts taken.accounts taken in
        ok (
          record filled { order = sort_by text_lt filled.order },
          history_changed || added,
          lacking,
        ))

-- Both files.
unfoldable pub load_files :
    Time
    → Loaded DiskState
    → Loaded AdjustmentDiskState
    → Tracker
    → Result OpenError (Tracker × Bool × Bool)
load_files now core sidecar t = elim (load_history now core t) [
  | err e ↦ err e
  | ok r ↦ load_adjustments now sidecar r.1 r.0
]

-- `sanitizeAdjustmentJitterLocked`
unfoldable pub sanitize_all :
    List (Text × List StoredAdjustment) → List (Text × List StoredAdjustment) × Bool
sanitize_all [] = ([], false)
sanitize_all ((key, stored) ∷ m) =
    let (kept, changed) = sanitize_jitter stored in
    let (rest, others) = sanitize_all m in ((key, kept) ∷ rest, changed || others)

-- `reconcileSidecarLocked`
unfoldable pub reconcile_all :
    ℕ
    → List (Text × List StoredAdjustment)
    → List (Text × DiskAccount)
    → List (Text × DiskAccount) × Bool
reconcile_all core_revision adjustments [] = ([], false)
reconcile_all core_revision adjustments ((key, a) ∷ m) =
    let (active, changed) =
      reconcile_account core_revision (adjustments_of key adjustments) a.active in
    let (rest, others) = reconcile_all core_revision adjustments m in
    ((key, record a { active = active }) ∷ rest, changed || others)

-- The rest of `Open`, on what was loaded.
unfoldable pub settle_files : Time → Writes → Bool → Bool → Tracker → Result OpenError Tracker
settle_files now io history_changed adjustments_changed t =
    let (sanitized, jitter) = sanitize_all t.adjustments in
    let (reconciled, redone) = reconcile_all t.core_revision sanitized t.accounts in
    let (pruned, history_pruned, adjustments_pruned) =
      prune now (record t { adjustments = sanitized; accounts = reconciled }) in
    let history_dirty = history_changed || redone || history_pruned in
    let adjustments_dirty = adjustments_changed || jitter || adjustments_pruned in
    if not (history_dirty || adjustments_dirty)
    then ok pruned
    else (let (written, fine) = persist_dirty io (record pruned {
      revision = next_revision pruned.revision;
      dirty = history_dirty;
      adjustments_dirty = adjustments_dirty;
    }) in
        if fine then ok written else err cannot_compact)

unfoldable pub open_tracker :
    Location
    → ℤ
    → Time
    → Loaded DiskState
    → Loaded AdjustmentDiskState
    → Writes
    → Result OpenError Tracker
open_tracker location retention now core sidecar io =
    if ltb_ℤ retention (pos (7 * day)) || ltb_ℤ (pos (366 * day)) retention
    then err bad_retention
    else elim location [
      | nowhere ↦ ok (record (blank true (pos_part retention)) {
        tracking_since = now;
        adjustments_tracking_since = now;
        revision = 1;
        core_revision = 1;
      })
      | relative ↦ err relative_path
      | absolute ↦ elim (load_files now core sidecar (blank false (pos_part retention))) [
        | err e ↦ err e
        | ok r ↦ settle_files now io r.1 r.2 r.0
      ]
    ]
