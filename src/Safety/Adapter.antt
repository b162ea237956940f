-- ===== src/Safety/Adapter.antt =====
-- backend/app/safety/adapter.py: `SafetyGateAdapter`. `disable_auto_trading` writes to the user's
-- settings in the database: the result says whether it is called and with which reason.
use mathlib.Core.Option
use leverage_agnet.Common.{not, if◌then◌else◌, ◌∷◌, List, Option, [], some, none, or_else}
use leverage_agnet.Common.Calendar.{Time}
use leverage_agnet.Common.Number
use leverage_agnet.Common.Number.{Number}
use leverage_agnet.Trading.{safety_gate}
use leverage_agnet.Safety.Gate.{check_order_allowed, on_trade_closed, Readings}
use leverage_agnet.Safety.Store.{StateStore}
use leverage_agnet.Safety.Types.{UserId, SafetyConfig, HaltReason, SafetyCheckResult}
use leverage_agnet.Execution.Types.{SafetyDecision}
use leverage_agnet.Orchestrator.Types.{PostTradeEvent}

abbrev pub decision_of : SafetyCheckResult → SafetyDecision
decision_of r = record {
  allowed = r.allowed;
  rejection_code = Option.map safety_gate r.halt_reason;
}

-- `next((r for r in results if not r.allowed), None)`
abbrev pub first_refused : List SafetyCheckResult → Option SafetyCheckResult
first_refused [] = none
first_refused (r ∷ rs) = if not r.allowed then some r else first_refused rs

-- the reason for a call of `disable_auto_trading`; `UNKNOWN` is `none`
abbrev pub disabled_for : Option SafetyCheckResult → Option (Option HaltReason)
disabled_for none = none
disabled_for (some r) = some r.halt_reason

module _ {A S : Type 0} (F : Number A) (st : StateStore A S) (config : SafetyConfig A) where
  unfoldable pub adapter_check : UserId → Readings → S → SafetyDecision × S
  adapter_check user_id at s =
      let (result, s') = check_order_allowed F st config user_id at s in (decision_of result, s')

  -- the realized profit, or the maximal loss as an estimate
  abbrev pub event_pnl : PostTradeEvent A → A
  event_pnl event = or_else event.realized_pnl_usdt (F.sub (Number.nil F) event.max_loss_usdt)

  unfoldable pub on_trade_executed :
      PostTradeEvent A → Time → Time → S → Option (Option HaltReason) × S
  on_trade_executed event at_daily at_weekly s =
      let (results, s') =
        on_trade_closed F st config event.user_id (event_pnl event) event.period_start_balance
          event.week_start_balance event.current_balance at_daily at_weekly s in
      (disabled_for (first_refused results), s')

-- The safety layer inside a world: its state, and the clock.
pub record Holds (S W : Type 0) : Type 0 where
  pub state : W → S
  pub with_state : S → W → W
  pub clock : W → Readings

-- `safety_gate=adapter`, for an engine in that world
abbrev pub adapted :
    {A S W : Type 0}
    → Number A
    → StateStore A S
    → SafetyConfig A
    → Holds S W
    → UserId
    → W
    → Option SafetyDecision × W
adapted F st config holds user_id w =
    let (d, s') = adapter_check F st config user_id (holds.clock w) (holds.state w) in
    (some d, holds.with_state s' w)
