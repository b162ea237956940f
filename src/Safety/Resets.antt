-- ===== src/Safety/Resets.antt =====
-- When the two halts end: the calendar of `_next_midnight_utc` and `_next_monday_utc`.
use leverage_agnet.Common.{◌+◌, ◌*◌, ◌%◌, ◌≤◌, ◌<◌, ◌≡◌, arith}
use leverage_agnet.Common.Calendar.{Time, day, weekday}
use leverage_agnet.Safety.KillSwitch.{next_midnight_utc, next_monday_utc}

-- `_next_midnight_utc` is the first midnight after the time: a whole number of days, later than
-- the time, and at most a day later.
pub next_midnight_utc_first :
    (now : Time)
    → (next_midnight_utc now % day ≡ 0)
      × (now < next_midnight_utc now)
      × (next_midnight_utc now ≤ now + day)
unfolding next_midnight_utc
next_midnight_utc_first now = (omega arith, omega arith, omega arith)

-- `_next_monday_utc` is the first Monday midnight after the time.
pub next_monday_utc_first :
    (now : Time)
    → (next_monday_utc now % day ≡ 0)
      × (weekday (next_monday_utc now) ≡ 0)
      × (now < next_monday_utc now)
      × (next_monday_utc now ≤ now + 7 * day)
unfolding next_monday_utc
next_monday_utc_first now = (omega arith, omega arith, omega arith, omega arith)
