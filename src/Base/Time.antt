-- ===== src/Base/Time.antt =====
-- `time.Time` as the nanoseconds since Go's zero time (1 January of year 1), so that the zero time
-- is 0, and a `time.Duration` from 0 on as nanoseconds.
use unibe_clan.Base.{ℕ, Bool, ◌==◌, ◌/◌}
use unibe_clan.Base.Int.{ℤ, sub_ℕ}

abbrev pub Time : Type 0
Time = ℕ

-- `t.IsZero()`
abbrev pub is_zero : Time → Bool
is_zero t = t == 0

abbrev pub second : ℕ
second = 1_000_000_000

-- `t.Unix()`: whole seconds since 1970, rounded down.
unfoldable pub unix : Time → ℤ
unix t = sub_ℕ (t / second) 62_135_596_800
