-- ===== src/History/Events.antt =====
-- internal/history/history.go: the completed windows of an account, and the public timeline of
-- reset points.
pub mod Append
pub mod Points
use unibe_clan.Base.{
  ℕ, Bool, true, false, not, ◌&&◌, ◌||◌, Option, none, some, List, [], ◌∷◌, ◌++◌, all, length,
  if◌then◌else◌, ltb, leb,
}
use unibe_clan.Base.Int.{ℤ, pos, ltb_ℤ, leb_ℤ, eqb_ℤ}
use unibe_clan.Base.Time.{Time}
use unibe_clan.Base.Sort.{sort_by}
use unibe_clan.History.Windows.{
  ResetWindow, valid_window, valid_span, reset_timestamps_equivalent, plausible_reset_transition,
}
use unibe_clan.History.Adjustments.{
  StoredAdjustment, reset_timestamp_changed, used_percent_decreased, has_reason, keep_last,
}

pub record ResetEvent : Type 0 where
  pub window_started_at : ℤ
  pub resets_at : ℤ
  pub detected_at : Time
  pub used_percent_before : ℤ

pub record DiskAccount : Type 0 where
  pub active : Option ResetWindow
  pub events : List ResetEvent

pub data PointKind : Type 0 where
  scheduled inferred_early : PointKind

pub record ResetPoint : Type 0 where
  pub at : ℤ
  pub detected_at : Time
  pub kind : PointKind
  pub used_percent_before : ℤ
  pub previous_scheduled_at : Option ℤ
  pub next_scheduled_at : Option ℤ

abbrev pub max_events_per_account : ℕ
max_events_per_account = 1024

abbrev pub max_reset_points_per_account : ℕ
max_reset_points_per_account = 1024

-- The tests of `validateDiskState` on one event.
unfoldable pub valid_event : ResetEvent → Bool
valid_event e = valid_span e.window_started_at e.resets_at e.detected_at e.used_percent_before

unfoldable pub event_exists : List ResetEvent → ℤ → Bool
event_exists [] reset_at = false
event_exists (e ∷ es) reset_at =
    let rest = event_exists es reset_at in if eqb_ℤ e.resets_at reset_at then true else rest

abbrev pub earlier_event : ResetEvent → ResetEvent → Bool
earlier_event a b = ltb_ℤ a.resets_at b.resets_at

-- `appendEvent`, on the account's events.
unfoldable pub append_event : List ResetEvent → ResetEvent → List ResetEvent
append_event events e =
    if event_exists events e.resets_at
    then events
    else keep_last max_events_per_account (sort_by earlier_event (events ++ (e ∷ [])))

-- The event of a window that ended.
abbrev pub event_of : Time → ResetWindow → ResetEvent
event_of detected_at w = record {
  window_started_at = w.window_started_at;
  resets_at = w.resets_at;
  detected_at = detected_at;
  used_percent_before = w.used_percent;
}

-- Its test of the active window.
unfoldable pub valid_active : Option ResetWindow → Bool
valid_active none = true
valid_active (some w) = valid_window w

-- The loop of `validateDiskState` on one account, but for its key.
unfoldable pub valid_account : DiskAccount → Bool
valid_account a =
    leb (length a.events) max_events_per_account
    && valid_active a.active
    && all valid_event a.events

unfoldable pub inferred_reset_point : StoredAdjustment → Option ResetPoint
inferred_reset_point s =
    let a = s.adjustment in
    if not (has_reason reset_timestamp_changed a.reasons)
      || not (has_reason used_percent_decreased a.reasons)
      || leb_ℤ a.before.used_percent a.after.used_percent
      || not (
          plausible_reset_transition a.before.first_observed_at a.after.window_started_at
            a.detected_at)
    then none
    else some (record {
      at = a.after.window_started_at;
      detected_at = a.detected_at;
      kind = inferred_early;
      used_percent_before = a.before.used_percent;
      previous_scheduled_at = some a.before.resets_at;
      next_scheduled_at = some a.after.resets_at;
    })

-- The first loop of `publicResetPoints`.
unfoldable pub scheduled_points : List ResetEvent → List ResetPoint
scheduled_points [] = []
scheduled_points (e ∷ es) =
    record {
      at = e.resets_at;
      detected_at = e.detected_at;
      kind = scheduled;
      used_percent_before = e.used_percent_before;
      previous_scheduled_at = none;
      next_scheduled_at = none;
    }
    ∷ scheduled_points es

-- Whether a point stands within the jitter of a timestamp.
unfoldable pub has_point_near : ℤ → List ResetPoint → Bool
has_point_near at [] = false
has_point_near at (p ∷ ps) =
    let rest = has_point_near at ps in if reset_timestamps_equivalent p.at at then true else rest

-- The second loop of `publicResetPoints`: `points` is what is collected so far.
unfoldable pub add_inferred : List ResetPoint → List StoredAdjustment → List ResetPoint
add_inferred points [] = points
add_inferred points (s ∷ ss) = elim (inferred_reset_point s) [
  | none ↦ add_inferred points ss
  | some p ↦ add_inferred (if has_point_near p.at points then points else points ++ (p ∷ [])) ss
]

unfoldable pub point_before : ResetPoint → ResetPoint → Bool
point_before p q = if not (eqb_ℤ p.at q.at) then ltb_ℤ p.at q.at else elim (p.kind) [
  | scheduled ↦ elim (q.kind) [
    | scheduled ↦ ltb p.detected_at q.detected_at
    | inferred_early ↦ true
  ]
  | inferred_early ↦ elim (q.kind) [
    | scheduled ↦ false
    | inferred_early ↦ ltb p.detected_at q.detected_at
  ]
]

unfoldable pub public_reset_points : List ResetEvent → List StoredAdjustment → List ResetPoint
public_reset_points events adjustments =
    keep_last max_reset_points_per_account
      (sort_by point_before (add_inferred (scheduled_points events) adjustments))
