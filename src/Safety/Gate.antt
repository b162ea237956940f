-- ===== src/Safety/Gate.antt =====
-- backend/app/safety/gate.py: `SafetyGate`. A call of the clock is an argument: a method that reads
-- it more than once takes each reading. The metrics that the gate counts are not modelled.
use leverage_agnet.Common.{
  true, false, not, ◌&&◌, none, some, List, [], ◌∷◌, ◌++◌, if◌then◌else◌, ℕ,
}
use leverage_agnet.Common.Calendar.{Time}
use leverage_agnet.Common.Number
use leverage_agnet.Common.Number.{Number}
use leverage_agnet.Safety.Disconnect.{record_api_failure, record_api_success, check_disconnect}
use leverage_agnet.Safety.Drawdown.{update_balance, check_drawdown, resume}
use leverage_agnet.Safety.Emergency.{activate, check_emergency, deactivate}
use leverage_agnet.Safety.KillSwitch.{
  record_loss, check_loss, reset_loss, still_runs, daily, weekly,
}
use leverage_agnet.Safety.Store.{StateStore}
use leverage_agnet.Safety.Types.{
  UserId, Activator, SafetyConfig, SafetyCheckResult, UserHaltStatus, allow, block, info,
  live_trading_disabled, daily_loss_limit, weekly_loss_limit,
}

-- the readings of the clock by the three checks that read it
pub record Readings : Type 0 where
  pub at_disconnect : Time
  pub at_daily : Time
  pub at_weekly : Time

-- A check that fails ends the sequence with its result.
abbrev pub and_then :
    {S : Type 0} → SafetyCheckResult × S → (S → SafetyCheckResult × S) → SafetyCheckResult × S
and_then (r, s) next = if r.allowed then next s else (r, s)

module _ {A S : Type 0} (F : Number A) (st : StateStore A S) (config : SafetyConfig A) where
  unfoldable pub check_order_allowed : UserId → Readings → S → SafetyCheckResult × S
  check_order_allowed user_id at s =
      if not config.live_trading_enabled
      then (block live_trading_disabled info, s)
      else and_then (check_emergency st s, s)
          λ s. and_then (check_disconnect st config at.at_disconnect s) λ s.
            and_then (check_loss F (daily F st config) user_id at.at_daily s) λ s.
              and_then (check_loss F (weekly F st config) user_id at.at_weekly s)
                λ s. and_then (check_drawdown F st config user_id s, s) λ s. (allow, s)

  -- the daily and the weekly switch, for a trade that lost
  unfoldable pub record_trade_loss :
      UserId → A → A → A → Time → Time → S → List SafetyCheckResult × S
  record_trade_loss user_id loss period_start week_start at_daily at_weekly s =
      let (r_daily, s₁) = record_loss F (daily F st config) user_id loss period_start at_daily s in
      let (r_weekly, s₂) =
        record_loss F (weekly F st config) user_id loss week_start at_weekly s₁ in
      (r_daily ∷ r_weekly ∷ [], s₂)

  -- `on_trade_closed`; the results come in the order of the source's list
  unfoldable pub on_trade_closed :
      UserId → A → A → A → A → Time → Time → S → List SafetyCheckResult × S
  unfolding record_trade_loss
  on_trade_closed user_id pnl period_start week_start balance at_daily at_weekly s =
      let loss = if F.ltb pnl (Number.nil F) then Number.abs F pnl else Number.nil F in
      let (results, s₁) =
        if F.ltb (Number.nil F) loss
        then record_trade_loss user_id loss period_start week_start at_daily at_weekly s
        else ([], s) in
      let (r_drawdown, s₂) = update_balance F st config user_id balance s₁ in
      (results ++ r_drawdown ∷ [], s₂)

  abbrev pub on_api_failure : Time → S → SafetyCheckResult × S
  on_api_failure = record_api_failure st config

  abbrev pub on_api_success : Time → S → S
  on_api_success = record_api_success st config

  abbrev pub trigger_emergency : ℕ → Activator → Time → S → S
  trigger_emergency = activate st

  abbrev pub deactivate_emergency : S → S
  deactivate_emergency = deactivate st

  abbrev pub resume_drawdown : UserId → S → S
  resume_drawdown = resume F st config

  abbrev pub reset_daily_switch : UserId → S → S
  reset_daily_switch = reset_loss F (daily F st config)

  abbrev pub reset_weekly_switch : UserId → S → S
  reset_weekly_switch = reset_loss F (weekly F st config)

  -- `get_halt_status` reads the clock once and changes nothing
  unfoldable pub get_halt_status : UserId → Time → S → UserHaltStatus
  get_halt_status user_id now s =
      let d = st.get_daily_kill_switch user_id s in
      if d.is_halted && still_runs d.halt_until now
      then record {
        is_halted = true;
        halt_reason = some daily_loss_limit;
        halt_until = d.halt_until;
      }
      else let w = st.get_weekly_kill_switch user_id s in
        if w.is_halted && still_runs w.halt_until now
        then record {
          is_halted = true;
          halt_reason = some weekly_loss_limit;
          halt_until = w.halt_until;
        }
        else record { is_halted = false; halt_reason = none; halt_until = none }
