-- ===== src/History/Windows.antt =====
-- internal/history/history.go: windows, their observations, and the comparisons of reset
-- timestamps. A validation answers whether its error is nil; no caller looks at the error. int64
-- subtraction wraps around; a duration is a number of nanoseconds.
pub mod Exact
use unibe_clan.Base.{
  ℕ, ◌+◌, ◌*◌, Bool, false, not, ◌&&◌, ◌||◌, Option, none, some, all, if◌then◌else◌,
  ◌==◌ as nat_beq,
}
use unibe_clan.Base.Keys.{Text}
use unibe_clan.Base.Int.{ℤ, pos, negsuc, ltb_ℤ, leb_ℤ, eqb_ℤ, sub_int64}
use unibe_clan.Base.Time.{Time, is_zero, second, unix}
use unibe_clan.Base.Unicode.{byte_len, is_between}
use unibe_clan.Model.{Window}

pub record ResetWindow : Type 0 where
  pub window_started_at : ℤ
  pub resets_at : ℤ
  pub first_observed_at : Time
  pub used_percent : ℤ

pub record WindowObservation : Type 0 where
  pub window_started_at : ℤ
  pub resets_at : ℤ
  pub first_observed_at : Time
  pub used_percent : ℤ

abbrev pub main_week_minutes : ℕ
main_week_minutes = 10_080

abbrev pub week_seconds : ℕ
week_seconds = main_week_minutes * 60

abbrev pub reset_timestamp_jitter_seconds : ℕ
reset_timestamp_jitter_seconds = 120

abbrev pub reset_observation_future_skew : ℕ
reset_observation_future_skew = 300

abbrev pub reset_observation_max_lag : ℕ
reset_observation_max_lag = 86_400

-- The tests that `validateWindow` and `validateObservation` share.
unfoldable pub valid_span : ℤ → ℤ → Time → ℤ → Bool
valid_span window_started_at resets_at observed_at used_percent = not (
    leb_ℤ window_started_at (pos 0)
    || leb_ℤ resets_at window_started_at
    || not (eqb_ℤ (sub_int64 resets_at window_started_at) (pos week_seconds))
    || is_zero observed_at
    || ltb_ℤ used_percent (pos 0)
    || ltb_ℤ (pos 100) used_percent)

-- `validateWindow`
unfoldable pub valid_window : ResetWindow → Bool
valid_window w = valid_span w.window_started_at w.resets_at w.first_observed_at w.used_percent

-- `validateObservation`
unfoldable pub valid_observation : WindowObservation → Bool
valid_observation w = valid_span w.window_started_at w.resets_at w.first_observed_at w.used_percent

-- `windowObservation`
abbrev pub window_observation : ResetWindow → WindowObservation
window_observation w = record {
  window_started_at = w.window_started_at;
  resets_at = w.resets_at;
  first_observed_at = w.first_observed_at;
  used_percent = w.used_percent;
}

unfoldable pub reset_timestamps_equivalent : ℤ → ℤ → Bool
reset_timestamps_equivalent left right =
    if ltb_ℤ right left
    then leb_ℤ (sub_int64 left right) (pos reset_timestamp_jitter_seconds)
    else leb_ℤ (sub_int64 right left) (pos reset_timestamp_jitter_seconds)

unfoldable pub reset_timestamp_settled : ℤ → ℤ → Bool
reset_timestamp_settled reset_at now =
    leb_ℤ reset_at now && leb_ℤ (pos reset_timestamp_jitter_seconds) (sub_int64 now reset_at)

unfoldable pub meaningfully_before_reset : ℤ → ℤ → Bool
meaningfully_before_reset reset_at now =
    ltb_ℤ now reset_at && ltb_ℤ (pos reset_timestamp_jitter_seconds) (sub_int64 reset_at now)

unfoldable pub plausible_observed_window_start : ℤ → Time → Bool
plausible_observed_window_start window_started_at detected_at =
    let delta = sub_int64 (unix detected_at) window_started_at in
    leb_ℤ (negsuc 299) delta && leb_ℤ delta (pos reset_observation_max_lag)

unfoldable pub plausible_reset_transition : Time → ℤ → Time → Bool
unfolding plausible_observed_window_start
plausible_reset_transition previous_observed_at window_started_at detected_at =
    leb_ℤ (unix previous_observed_at) window_started_at
    && plausible_observed_window_start window_started_at detected_at

-- `receivedAt.Add(7*24*time.Hour + 5*time.Minute)`
abbrev pub latest_reset : Time → Time
latest_reset received_at = received_at + (604_800 + 300) * second

-- The window that an observation proposes.
abbrev pub window_at : Time → ℤ → ℤ → ResetWindow
window_at received_at reset_at used_percent = record {
  window_started_at = sub_int64 reset_at (pos week_seconds);
  resets_at = reset_at;
  first_observed_at = received_at;
  used_percent = used_percent;
}

-- The guards that `observeWindowLocked` and `rebaselineWindowLocked` share, with the window that
-- they propose.
unfoldable pub propose : Time → Window → Option ResetWindow
propose received_at window = elim (window.window_duration_mins) [
  | none ↦ none
  | some mins ↦ elim (window.resets_at) [
    | none ↦ none
    | some reset_at ↦
        if not (eqb_ℤ mins (pos main_week_minutes))
        then none
        else if leb_ℤ reset_at (unix received_at)
            || ltb_ℤ (unix (latest_reset received_at)) reset_at
        then none
        else (let proposed = window_at received_at reset_at window.used_percent in
            if not (valid_window proposed) then none else some proposed)
  ]
]

-- `validAccountKey`
unfoldable pub valid_account_key : Text → Bool
valid_account_key value =
    if not (nat_beq (byte_len value) 64)
    then false
    else all (λ c. is_between b'0' b'9' c || is_between b'a' b'f' c) value
