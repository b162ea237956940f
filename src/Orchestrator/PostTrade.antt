-- ===== src/Orchestrator/PostTrade.antt =====
-- agents/orchestrator/pipeline.py: `_fire_post_trade_hook`, `_fire_order_filled_alert` and
-- `_fire_emergency_alert`. Each returns without a call if the entry order is missing.
use leverage_agnet.Common.{zero, none, ◌==◌, or_else, if◌then◌else◌, suc, some, ℕ, Option}
use leverage_agnet.Common.Number
use leverage_agnet.Common.Number.{Number}
use leverage_agnet.Trading.{is_trade, long, ValidationResult, TradeCandidate, RawSignal, Action}
use leverage_agnet.Execution.Types.{ExecutionResult, FilledOrder}
use leverage_agnet.Orchestrator.Types.{
  order_filled, emergency, PipelineInput, Alert, PostTradeEvent,
}

-- Python's `a or b or 1` on leverages
abbrev pub first_nonzero : Option ℕ → ℕ → ℕ
first_nonzero (some (suc n)) b = suc n
first_nonzero (some zero) b = if b == 0 then 1 else b
first_nonzero none b = if b == 0 then 1 else b

module _ {A : Type 0} (F : Number A) where
  -- the profit of a closed position, by the prices of its two fills
  abbrev pub fill_pnl : Action → FilledOrder A → FilledOrder A → A
  fill_pnl long entry exit = F.mul (F.sub exit.avg_fill_price entry.avg_fill_price) entry.quantity
  fill_pnl _ entry exit = F.mul (F.sub entry.avg_fill_price exit.avg_fill_price) entry.quantity

  abbrev pub realized_pnl : Action → FilledOrder A → Option (FilledOrder A) → Option A
  realized_pnl direction entry none = none
  realized_pnl direction entry (some exit) = some (fill_pnl direction entry exit)

  unfoldable pub post_trade_event :
      PipelineInput A
      → RawSignal A
      → ValidationResult A
      → FilledOrder A
      → Option (FilledOrder A)
      → PostTradeEvent A
  post_trade_event inp raw v entry exit = record {
    user_id = inp.user_id;
    direction = raw.direction;
    entry_price = entry.avg_fill_price;
    quantity = entry.quantity;
    stop_loss = raw.stop_loss;
    max_loss_usdt = or_else v.max_loss_usdt (Number.nil F);
    period_start_balance = F.add (Number.nil F) inp.daily_loss_usdt;
    week_start_balance = F.add (Number.nil F) inp.weekly_loss_usdt;
    current_balance = Number.nil F;
    realized_pnl_usdt = realized_pnl raw.direction entry exit;
  }

  unfoldable pub fire_post_trade_hook :
      {W : Type 0}
      → Option (PostTradeEvent A → W → W)
      → PipelineInput A
      → RawSignal A
      → ValidationResult A
      → ExecutionResult A
      → W
      → W
  fire_post_trade_hook none inp raw v er w = w
  fire_post_trade_hook (some hook) inp raw v er w = elim er.entry_order [
    | none ↦ w
    | some entry ↦ hook (post_trade_event inp raw v entry er.emergency_close_order) w
  ]

abbrev pub fill_price : {A : Type 0} → A → Option (FilledOrder A) → A
fill_price d none = d
fill_price d (some o) = o.avg_fill_price

unfoldable pub fire_emergency_alert :
    {A W : Type 0} → Option (Alert A → W → W) → RawSignal A → ExecutionResult A → W → W
fire_emergency_alert none raw er w = w
fire_emergency_alert (some dispatch) raw er w = elim er.entry_order [
  | none ↦ w
  | some entry ↦
      let exit_price = fill_price entry.avg_fill_price er.emergency_close_order in
      dispatch (emergency raw.direction entry.avg_fill_price exit_price) w
]

-- a direction other than LONG or SHORT sends nothing
unfoldable pub fire_order_filled_alert :
    {A W : Type 0}
    → Option (Alert A → W → W)
    → TradeCandidate A
    → RawSignal A
    → ValidationResult A
    → ExecutionResult A
    → W
    → W
fire_order_filled_alert none c raw v er w = w
fire_order_filled_alert (some dispatch) c raw v er w = elim er.entry_order [
  | none ↦ w
  | some entry ↦
      let leverage = first_nonzero v.final_leverage c.leverage in
      let alert =
        order_filled raw.direction entry.avg_fill_price entry.quantity leverage raw.take_profit
          raw.stop_loss in
      if is_trade raw.direction then dispatch alert w else w
]
