-- ===== src/History/Adjustments.antt =====
-- internal/history/history.go: the changes of a window that are recorded before it was due to
-- reset. A reason is a string; `unknown` holds any other. Cloning a slice copies it, so it has no
-- counterpart here.
pub mod Append
pub mod Last
pub mod Jitter
use unibe_clan.Base.{
  ℕ, ◌+◌, ◌-◌, ◌/◌, Bool, true, false, not, ◌&&◌, ◌||◌, List, [], ◌∷◌, ◌++◌, map, length, drop,
  if◌then◌else◌, ltb, leb, ◌==◌ as nat_beq,
}
use unibe_clan.Base.Keys.{Text, text_beq}
use unibe_clan.Base.Int.{ℤ, pos, ◌+ℤ◌, ltb_ℤ, leb_ℤ, eqb_ℤ, wrap_int64}
use unibe_clan.Base.Time.{Time, is_zero, second, unix}
use unibe_clan.Base.Sort.{sort_by}
use unibe_clan.History.Windows.{
  WindowObservation, valid_observation, latest_reset, reset_timestamps_equivalent,
}

pub data Reason : Type 0 where
  reset_timestamp_changed used_percent_decreased : Reason
  unknown : Text → Reason

unfoldable pub reason_beq : Reason → Reason → Bool
reason_beq reset_timestamp_changed reset_timestamp_changed = true
reason_beq used_percent_decreased used_percent_decreased = true
reason_beq (unknown s) (unknown t) = text_beq s t
reason_beq _ _ = false

pub record Adjustment : Type 0 where
  pub detected_at : Time
  pub reasons : List Reason
  pub before : WindowObservation
  pub after : WindowObservation

pub record StoredAdjustment : Type 0 where
  pub adjustment : Adjustment
  pub core_revision_before : ℕ

-- `==` on two observations
unfoldable pub same_observation : WindowObservation → WindowObservation → Bool
same_observation a b =
    eqb_ℤ a.window_started_at b.window_started_at
    && eqb_ℤ a.resets_at b.resets_at
    && nat_beq a.first_observed_at b.first_observed_at
    && eqb_ℤ a.used_percent b.used_percent

-- `t.Before(time.Unix(seconds, 0))`: both are compared by their seconds since year 1, of which the
-- second has no fraction.
unfoldable pub before_unix : Time → ℤ → Bool
before_unix t seconds = ltb_ℤ (pos (t / second)) (wrap_int64 (seconds +ℤ pos 62_135_596_800))

-- The reasons that `validateAdjustment` wants.
unfoldable pub want_reasons : Bool → Bool → List Reason
want_reasons reset_changed usage_decreased =
    (if reset_changed then reset_timestamp_changed ∷ [] else [])
    ++ (if usage_decreased then used_percent_decreased ∷ [] else [])

unfoldable pub same_reasons : List Reason → List Reason → Bool
same_reasons [] [] = true
same_reasons (r ∷ rs) (s ∷ ss) = reason_beq r s && same_reasons rs ss
same_reasons _ _ = false

-- The tests of `validateAdjustment` up to its first return.
unfoldable pub in_bounds : StoredAdjustment → Bool
in_bounds s =
    let a = s.adjustment in
    not (
      is_zero a.detected_at
      || nat_beq s.core_revision_before 0
      || not (valid_observation a.before)
      || not (valid_observation a.after)
      || ltb a.detected_at a.before.first_observed_at
      || ltb a.detected_at a.after.first_observed_at
      || leb_ℤ a.before.resets_at (unix a.detected_at)
      || leb_ℤ a.after.resets_at (unix a.detected_at)
      || ltb_ℤ (unix (latest_reset a.detected_at)) a.after.resets_at)

-- `validateAdjustment`
unfoldable pub valid_adjustment : StoredAdjustment → Bool
valid_adjustment s =
    let a = s.adjustment in
    let reset_changed = not (eqb_ℤ a.before.resets_at a.after.resets_at) in
    let usage_decreased = ltb_ℤ a.after.used_percent a.before.used_percent in
    if not (in_bounds s)
    then false
    else if reset_changed && not (before_unix a.detected_at a.before.resets_at)
    then false
    else if not reset_changed && not usage_decreased
    then false
    else same_reasons a.reasons (want_reasons reset_changed usage_decreased)

-- `adjustmentHasReason`, on the reasons.
unfoldable pub has_reason : Reason → List Reason → Bool
has_reason r [] = false
has_reason r (s ∷ ss) = if reason_beq s r then true else has_reason r ss

-- The search of `appendAdjustment` for an adjustment of the same window at the same revision.
unfoldable pub already_recorded : StoredAdjustment → List StoredAdjustment → Bool
already_recorded s [] = false
already_recorded s (e ∷ es) =
    let rest = already_recorded s es in
    if nat_beq e.core_revision_before s.core_revision_before
      && same_observation e.adjustment.before s.adjustment.before
    then true
    else rest

abbrev pub detected_before : StoredAdjustment → StoredAdjustment → Bool
detected_before a b = ltb a.adjustment.detected_at b.adjustment.detected_at

abbrev pub max_adjustments : ℕ
max_adjustments = 1024

-- Keep the last entries of a list that is too long.
unfoldable pub keep_last {ℓ} : {A : Type ℓ} → ℕ → List A → List A
keep_last limit xs = if ltb limit (length xs) then drop (length xs - limit) xs else xs

unfoldable pub append_adjustment :
    List StoredAdjustment → StoredAdjustment → List StoredAdjustment × Bool
append_adjustment adjustments s =
    if not (valid_adjustment s)
    then (adjustments, false)
    else if already_recorded s adjustments
    then (adjustments, false)
    else (keep_last max_adjustments (sort_by detected_before (adjustments ++ (s ∷ []))), true)

-- `publicAdjustments`
unfoldable pub public_adjustments : List StoredAdjustment → List Adjustment
public_adjustments value = map (λ s. s.adjustment) value

-- The loop of `sanitizeAdjustmentJitterLocked` over one account's adjustments.
unfoldable pub sanitize_jitter : List StoredAdjustment → List StoredAdjustment × Bool
sanitize_jitter [] = ([], false)
sanitize_jitter (s ∷ ss) =
    let (kept, changed) = sanitize_jitter ss in
    let a = s.adjustment in
    if not (has_reason reset_timestamp_changed a.reasons)
      || not (reset_timestamps_equivalent a.before.resets_at a.after.resets_at)
    then (s ∷ kept, changed)
    else if leb_ℤ a.before.used_percent a.after.used_percent
    then (kept, true)
    else (
      record {
        adjustment = record {
          detected_at = a.detected_at;
          reasons = used_percent_decreased ∷ [];
          before = a.before;
          after = record {
            window_started_at = a.before.window_started_at;
            resets_at = a.before.resets_at;
            first_observed_at = a.before.first_observed_at;
            used_percent = a.after.used_percent;
          };
        };
        core_revision_before = s.core_revision_before;
      }
          ∷ kept,
      true,
    )
