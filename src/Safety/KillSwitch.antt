-- ===== src/Safety/KillSwitch.antt =====
-- backend/app/safety/kill_switch.py: `DailyKillSwitch` and `WeeklyKillSwitch`. The two classes
-- have the same methods over another part of the store, another limit and another end of a halt:
-- these are a record, and each method of a class is the common one at its record.
use leverage_agnet.Common.{
  ◌+◌, ◌-◌, ◌*◌, Bool, true, not, ◌&&◌, Option, none, some, ltb, if◌then◌else◌,
}
use leverage_agnet.Common.Calendar.{Time, day, weekday, start_of_day}
use leverage_agnet.Common.Number
use leverage_agnet.Common.Number.{Number}
use leverage_agnet.Safety.Disconnect.{has_expired}
use leverage_agnet.Safety.Store.{StateStore}
use leverage_agnet.Safety.Types.{
  UserId, HaltReason, SafetyConfig, SafetyCheckResult, KillSwitchState, new_kill_switch, allow,
  allow_with_warning, block, daily_loss_limit, weekly_loss_limit, critical, daily_loss_warning_pct,
  daily_loss_caution_pct, daily_loss_halt_pct, weekly_loss_warning_pct, weekly_loss_caution_pct,
  weekly_loss_halt_pct,
}

unfoldable pub next_midnight_utc : Time → Time
next_midnight_utc now = start_of_day now + day

-- The week is added before the days are taken off, so that the subtraction is exact on ℕ.
unfoldable pub next_monday_utc : Time → Time
next_monday_utc now = start_of_day (now + 7 * day - weekday now * day)

pub record Period (A S : Type 0) : Type 0 where
  pub get : UserId → S → KillSwitchState A
  pub set : UserId → KillSwitchState A → S → S
  pub reason : HaltReason
  pub limit_pct : A
  pub warning_pct : A
  pub caution_pct : A
  pub halt_pct : A
  pub next_reset : Time → Time

-- `halt_until is None or now < halt_until`
abbrev pub still_runs : Option Time → Time → Bool
still_runs none now = true
still_runs (some t) now = ltb now t

module _ {A : Type 0} (F : Number A) where
  -- `loss / limit if limit > 0 else 0.0`
  abbrev pub loss_ratio : A → A → A
  loss_ratio loss limit = if F.ltb (Number.nil F) limit then F.div loss limit else Number.nil F

  -- the state with one more loss
  abbrev pub with_loss : A → A → KillSwitchState A → KillSwitchState A
  with_loss loss start_balance state = record state {
    period_start_balance = start_balance;
    current_loss_usdt = F.add state.current_loss_usdt loss;
  }

  -- the state that a loss is added to: a halt that has expired starts afresh
  abbrev pub base_state : UserId → Time → KillSwitchState A → KillSwitchState A
  base_state u now state =
      if state.is_halted && has_expired state.halt_until now then new_kill_switch F u else state

module _ {A S : Type 0} (F : Number A) where
  unfoldable pub record_loss : Period A S → UserId → A → A → Time → S → SafetyCheckResult × S
  record_loss p user_id loss_usdt start_balance now s =
      let state = p.get user_id s in
      if state.is_halted && still_runs state.halt_until now
      then (block p.reason critical, s)
      else let state' = with_loss F loss_usdt start_balance (base_state F user_id now state) in
        let ratio = loss_ratio F state'.current_loss_usdt (F.mul start_balance p.limit_pct) in
        if F.leb p.halt_pct ratio
        then (
          block p.reason critical,
          p.set user_id
              (record state' {
                is_halted = true;
                halt_reason = some p.reason;
                halt_until = some (p.next_reset now);
              })
              s,
        )
        else let s' = p.set user_id state' s in
          if F.leb p.caution_pct ratio
          then (allow_with_warning, s')
          else if F.leb p.warning_pct ratio
          then (allow_with_warning, s')
          else (allow, s')

  unfoldable pub check_loss : Period A S → UserId → Time → S → SafetyCheckResult × S
  check_loss p user_id now s =
      let state = p.get user_id s in
      if not state.is_halted
      then (allow, s)
      else if has_expired state.halt_until now
      then (allow, p.set user_id (new_kill_switch F user_id) s)
      else (block p.reason critical, s)

  unfoldable pub reset_loss : Period A S → UserId → S → S
  reset_loss p user_id s = p.set user_id (new_kill_switch F user_id) s

module _ {A S : Type 0} (F : Number A) (st : StateStore A S) (config : SafetyConfig A) where
  abbrev pub daily : Period A S
  daily = record {
    get = st.get_daily_kill_switch;
    set = st.set_daily_kill_switch;
    reason = daily_loss_limit;
    limit_pct = config.daily_loss_limit_pct;
    warning_pct = daily_loss_warning_pct F;
    caution_pct = daily_loss_caution_pct F;
    halt_pct = daily_loss_halt_pct F;
    next_reset = next_midnight_utc;
  }

  abbrev pub weekly : Period A S
  weekly = record {
    get = st.get_weekly_kill_switch;
    set = st.set_weekly_kill_switch;
    reason = weekly_loss_limit;
    limit_pct = config.weekly_loss_limit_pct;
    warning_pct = weekly_loss_warning_pct F;
    caution_pct = weekly_loss_caution_pct F;
    halt_pct = weekly_loss_halt_pct F;
    next_reset = next_monday_utc;
  }
