-- ===== src/Hub/Conflict/Tolerance.antt =====
-- The tolerances on the numbers that a snapshot reports.
use unibe_clan.Base.{ℕ, ◌+◌, ◌<◌, ◌≤◌, ◌≡◌, ◌↔◌, true, arith}
use unibe_clan.Base.Int.{pos, ◌-ℤ◌, sub_int64, wrap_int64}
use unibe_clan.Hub.Conflict.{within_tolerance}

-- Two numbers from 0 on and below 2^63 are within a tolerance exactly if neither is above the other
-- by more: the difference does not overflow.
pub within_tolerance_exact :
    (left right tolerance : ℕ)
    → left < 9_223_372_036_854_775_808
    → right < 9_223_372_036_854_775_808
    → (within_tolerance (pos left) (pos right) (pos tolerance) ≡ true)
      ↔ ((left ≤ right + tolerance) × (right ≤ left + tolerance))
unfolding within_tolerance ◌-ℤ◌ sub_int64 wrap_int64
within_tolerance_exact left right tolerance small small' = ground arith
