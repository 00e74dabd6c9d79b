-- ===== src/History/Observe/Submitted.antt =====
-- What the history makes of a snapshot that the model's validation has accepted.
use unibe_clan.Base.{ℕ, ◌-◌, ◌≤◌, ◌<◌, ◌≡◌, ◌≢◌, refl, true, false, none, some, arith}
use unibe_clan.Base.Int.{
  ℤ, pos, negsuc, pos_part, neg_part, ltb_ℤ, leb_ℤ, sub_int64, sub_int64_exact, -ℤ_parts, ◌<ℤ◌,
  ◌≤ℤ◌,
}
use unibe_clan.Base.Time.{Time, unix}
use unibe_clan.Model.{ok, Window, Snapshot}
use unibe_clan.Model.Validate.{
  validate_snapshot, validate_state, validate_main_usage, validate_window, is_within,
  submits_nothing,
}
use unibe_clan.History.Windows.{propose, valid_window, valid_span, window_at, latest_reset}
use unibe_clan.History.Observe.{canonical_email}

snapshot_state :
    (now : Time) (s : Snapshot) → validate_snapshot now s ≡ true → validate_state s ≡ true
unfolding validate_snapshot
snapshot_state now s h = ground arith

snapshot_usage :
    (now : Time) (s : Snapshot) (w : Window)
    → validate_snapshot now s ≡ true
    → s.main_usage ≡ some w
    → validate_main_usage s.observed_at w ≡ true
unfolding validate_snapshot
snapshot_usage now s w h given = ground arith

-- A snapshot that was accepted and carries the main usage comes from a user who is signed in, and
-- names the account by an email.
pub submitted_usage_named :
    (now : Time) (s : Snapshot) (w : Window)
    → validate_snapshot now s ≡ true
    → s.main_usage ≡ some w
    → (s.state ≡ ok) × (canonical_email s ≢ none)
unfolding validate_state canonical_email submits_nothing
submitted_usage_named now s w h given =
    let fine = snapshot_state now s h in
    (ground (arith, fine, given), λ missing. ground (arith, fine, given, missing))

sub_int64_down :
    (a b : ℕ) → b ≤ a → a < 9_223_372_036_854_775_808 → sub_int64 (pos a) (pos b) ≡ pos (a - b)
sub_int64_down a b le small =
    let exact = sub_int64_exact a b small (omega (arith, le, small)) in
    ground (arith, exact, -ℤ_parts (pos a) (pos b), le)

-- A window of a week before a timestamp that the model accepts.
usage_window_valid :
    (now : Time) (r : ℕ) (used : ℤ)
    → now ≢ 0
    → 604_800 < r
    → r ≤ 32_503_680_000
    → is_within (pos 0) (pos 100) used ≡ true
    → valid_window (window_at now (pos r) used) ≡ true
unfolding valid_window valid_span is_within
usage_window_valid now r used nonzero above below percent =
    let start = sub_int64_down r 604_800 (omega (arith, above)) (omega (arith, below)) in
    let week = sub_int64_down r (r - 604_800) (omega arith) (omega (arith, below)) in
    let week_long : r - (r - 604_800) ≡ 604_800 = omega (arith, above) in
    rw (start, week, week_long) (ground (arith, nonzero, above, below, percent))

-- What the model has checked of the weekly window, in numbers.
main_usage_bounds :
    (observed_at : Time) (w : Window) (r : ℤ)
    → validate_main_usage observed_at w ≡ true
    → w.resets_at ≡ some r
    → (w.window_duration_mins ≡ some (pos 10_080))
      × (is_within (pos 0) (pos 100) w.used_percent ≡ true)
      × (pos_part r ≤ 32_503_680_000)
      × (neg_part r ≡ 0)
      × (604_800 < pos_part r)
unfolding validate_main_usage validate_window is_within
main_usage_bounds observed_at w (pos r) h due =
    let facts : (r ≤ 32_503_680_000) × (ltb_ℤ (pos 0) (sub_int64 (pos r) (pos 604_800)) ≡ true) =
      (ground (arith, h, due), ground (arith, h, due)) in
    let exact = sub_int64_exact r 604_800 (omega (arith, facts.0)) (omega arith) in
    (
      ground (arith, h, due),
      ground (arith, h, due),
      facts.0,
      refl,
      ground (arith, facts.1, exact, -ℤ_parts (pos r) (pos 604_800)),
    )
main_usage_bounds observed_at w (negsuc r) h due = ground (arith, h, due)

-- The main usage of a snapshot that was accepted is a window that the history takes on, if its reset
-- is ahead, by no more than seven days and five minutes.
pub submitted_usage_proposed :
    (checked now : Time) (s : Snapshot) (w : Window) (resets_at : ℤ)
    → validate_snapshot checked s ≡ true
    → s.main_usage ≡ some w
    → w.resets_at ≡ some resets_at
    → now ≢ 0
    → unix now <ℤ resets_at
    → resets_at ≤ℤ unix (latest_reset now)
    → propose now w ≡ some (window_at now resets_at w.used_percent)
unfolding propose
submitted_usage_proposed checked now s w (pos r) h given due nonzero ahead near =
    let (weekly, percent, below, _, above) =
      main_usage_bounds s.observed_at w (pos r) (snapshot_usage checked s w h given) due in
    let fine = usage_window_valid now r w.used_percent nonzero above below percent in
    let not_past : leb_ℤ (pos r) (unix now) ≡ false = ground (arith, ahead) in
    let not_far : ltb_ℤ (unix (latest_reset now)) (pos r) ≡ false = ground (arith, near) in
    rw (weekly, due, not_past, not_far, fine, propose) refl
submitted_usage_proposed checked now s w (negsuc r) h given due nonzero ahead near =
    let (_, _, _, impossible, _) =
      main_usage_bounds s.observed_at w (negsuc r) (snapshot_usage checked s w h given) due in
    ground (arith, impossible)
