-- ===== src/Common/Calendar.antt =====
-- Points in time: microseconds since 1970-01-01 00:00 UTC, a Thursday.
use Prim.Native.Nat.{ℕ, ◌+◌, ◌*◌, ◌/◌, ◌%◌}

abbrev pub Time : Type 0
Time = ℕ

abbrev pub second : ℕ
second = 1000000

abbrev pub minute : ℕ
minute = 60000000

abbrev pub day : ℕ
day = 86400000000

-- `t.weekday()`: 0 is Monday
abbrev pub weekday : Time → ℕ
weekday t = (t / day + 3) % 7

-- `t.replace(hour=0, minute=0, second=0, microsecond=0)`
abbrev pub start_of_day : Time → Time
start_of_day t = t / day * day
