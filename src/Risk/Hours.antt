-- ===== src/Risk/Hours.antt =====
-- The hours of trading and the ends of halts, against descriptions by numbers.
use leverage_agnet.Risk.KillSwitch.{
  until_next_monday_utc, until_midnight_utc, compute_until, HaltTrigger,
}
use leverage_agnet.Risk.Types.{UserContext}
use leverage_agnet.Risk.Validators.{
  in_range, minute_of_day, check_trading_hours, clock_text, leb_text,
}
use leverage_agnet.Common.{ap, arith, leb, ◌+◌, ℕ, refl, some, ◌≡◌, ◌<◌, ◌%◌, ◌-◌}
use leverage_agnet.Common.Calendar.{Time}
use leverage_agnet.Safety.KillSwitch.{next_midnight_utc, next_monday_utc}

-- The order of two texts "HH:MM" is that of their minutes.
leb_text-clock_text :
    (a b : ℕ) → a < 1440 → b < 1440 → leb_text (clock_text a) (clock_text b) ≡ leb a b
unfolding leb_text
leb_text-clock_text a b p q = ground arith

-- how long after `start` the clock shows `t`, past midnight too
abbrev minutes_after : ℕ → ℕ → ℕ
minutes_after start t = (t + 1440 - start) % 1440

in_range_window :
    (start end m : ℕ)
    → start < 1440
    → end < 1440
    → m < 1440
    → in_range (clock_text start) (clock_text end) (clock_text m)
      ≡ leb (minutes_after start m) (minutes_after start end)
in_range_window start end m p q r =
    rw (leb_text-clock_text start end p q)
      (rw (leb_text-clock_text start m p r) (rw (leb_text-clock_text m end r q) (ground arith)))

module _ {A : Type 0} (ctx : UserContext A) (start end : ℕ)
    (starts : ctx.allowed_hours_start ≡ some (clock_text start))
    (ends : ctx.allowed_hours_end ≡ some (clock_text end)) (start_in_day : start < 1440)
    (end_in_day : end < 1440) where
  -- With allowed hours from `start` to `end`, two texts "HH:MM" of times of the day, trading is
  -- allowed exactly when the clock shows a minute that comes, after `start` and past midnight too, no
  -- later than `end` does.
  pub check_trading_hours-window :
      (now : Time)
      → check_trading_hours ctx now
        ≡ leb (minutes_after start (minute_of_day now)) (minutes_after start end)
  unfolding check_trading_hours
  check_trading_hours-window now =
      let m = minute_of_day now in
      rw starts (rw ends (in_range_window start end m start_in_day end_in_day (omega arith)))

-- The risk engine's halts on losses end when the safety layer's do: at the next midnight UTC, and
-- at the next midnight UTC before a Monday.
pub compute_until-resets :
    (now : Time)
    → (compute_until HaltTrigger.daily_loss_limit now ≡ some (next_midnight_utc now))
      × (compute_until HaltTrigger.weekly_loss_limit now ≡ some (next_monday_utc now))
unfolding compute_until until_midnight_utc until_next_monday_utc next_midnight_utc next_monday_utc
compute_until-resets now = (refl, ap some (ground arith))
