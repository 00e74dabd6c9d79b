-- ===== src/History/Windows/Exact.antt =====
-- The comparisons of reset timestamps, on Unix times from 1970 on: int64 subtraction is exact there.
use unibe_clan.Base.{ℕ, ◌+◌, ◌≤◌, ◌<◌, ◌≡◌, ◌↔◌, true, arith}
use unibe_clan.Base.Int.{pos, -ℤ_parts, sub_int64_exact}
use unibe_clan.History.Windows.{
  reset_timestamps_equivalent, reset_timestamp_settled, meaningfully_before_reset,
}

-- For two Unix times from 1970 on, below 2^63: they are equivalent exactly if they are at most two
-- minutes apart, the first is settled at the second exactly if it is at least two minutes past, and
-- the second is meaningfully before the first exactly if it is more than two minutes before.
pub reset_timestamps_exact :
    (a b : ℕ)
    → a < 9_223_372_036_854_775_808
    → b < 9_223_372_036_854_775_808
    → ((reset_timestamps_equivalent (pos a) (pos b) ≡ true) ↔ ((a ≤ b + 120) × (b ≤ a + 120)))
      × ((reset_timestamp_settled (pos a) (pos b) ≡ true) ↔ (a + 120 ≤ b))
      × ((meaningfully_before_reset (pos a) (pos b) ≡ true) ↔ (b + 120 < a))
unfolding reset_timestamps_equivalent reset_timestamp_settled meaningfully_before_reset
reset_timestamps_exact a b ha hb = ground (
  arith,
  sub_int64_exact a b ha hb,
  sub_int64_exact b a hb ha,
  -ℤ_parts (pos a) (pos b),
  -ℤ_parts (pos b) (pos a),
)
