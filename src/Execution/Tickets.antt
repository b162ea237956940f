-- ===== src/Execution/Tickets.antt =====
-- agents/execution/engine.py: the ticket builders and the local checks before an order.
use leverage_agnet.Common.{
  String, Bool, true, false, not, ◌&&◌, Option, none, some, if◌then◌else◌, or_else, is_some, leb,
}
use leverage_agnet.Common.Number
use leverage_agnet.Common.Number.{Number}
use leverage_agnet.Trading.{
  Action, long, short, hold, is_trade, Code, RawSignal, TradeCandidate, ValidationResult,
  FinalDecision, final_decision_missing, candidate_missing, final_decision_hold, invalid_direction,
  order_003, take_profit_missing, sizing, leverage,
}
use leverage_agnet.Execution.Types.{
  Side, buy, sell, market, take_profit_market, stop_market, entry, take_profit, stop_loss,
  emergency_close, OrderTicket, ExecutionRequest,
}

-- `signal_for_orders`: the candidate, or the legacy signal; the attributes that the engine reads
pub record Order (A : Type 0) : Type 0 where
  pub direction : Action
  pub symbol : String
  pub entry_price : A
  pub take_profit : Option A
  pub stop_loss : Option A

abbrev pub of_raw : {A : Type 0} → RawSignal A → Order A
of_raw s = record {
  direction = s.direction;
  symbol = s.symbol;
  entry_price = s.entry_price;
  take_profit = s.take_profit;
  stop_loss = s.stop_loss;
}

abbrev pub of_candidate : {A : Type 0} → TradeCandidate A → Order A
of_candidate c = record {
  direction = c.action;
  symbol = c.symbol;
  entry_price = c.entry_price;
  take_profit = c.take_profit;
  stop_loss = c.stop_loss;
}

-- `_ENTRY_SIDE` and `_CLOSE_SIDE`, read only at LONG and SHORT
unfoldable pub entry_side : Action → Side
entry_side long = buy
entry_side short = sell
entry_side hold = sell

unfoldable pub close_side : Action → Side
close_side long = sell
close_side short = buy
close_side hold = buy

module _ {A : Type 0} where
  unfoldable pub build_entry_ticket : Order A → A → OrderTicket A
  build_entry_ticket o quantity = record {
    symbol = o.symbol;
    side = entry_side o.direction;
    order_type = market;
    quantity = quantity;
    price = o.entry_price;
    reduce_only = false;
    purpose = entry;
  }

  unfoldable pub build_tp_ticket : Order A → A → A → OrderTicket A
  build_tp_ticket o quantity trigger = record {
    symbol = o.symbol;
    side = close_side o.direction;
    order_type = take_profit_market;
    quantity = quantity;
    price = trigger;
    reduce_only = true;
    purpose = take_profit;
  }

  unfoldable pub build_sl_ticket : Order A → A → A → OrderTicket A
  build_sl_ticket o quantity trigger = record {
    symbol = o.symbol;
    side = close_side o.direction;
    order_type = stop_market;
    quantity = quantity;
    price = trigger;
    reduce_only = true;
    purpose = stop_loss;
  }

  unfoldable pub build_emergency_close_ticket : Order A → A → OrderTicket A
  build_emergency_close_ticket o quantity = record {
    symbol = o.symbol;
    side = close_side o.direction;
    order_type = market;
    quantity = quantity;
    price = o.entry_price;
    reduce_only = true;
    purpose = emergency_close;
  }

-- the figures of an order that has passed the local checks
pub record Checked (A : Type 0) : Type 0 where
  pub quantity : A
  pub take_profit : A
  pub stop_loss : A

pub data Safety (A : Type 0) : Type 0 where
  safe : Checked A → Safety A
  unsafe : Option Code → Safety A

-- a decision is there and is neither LONG nor SHORT
abbrev pub is_held : {A : Type 0} → Option (FinalDecision A) → Bool
is_held none = false
is_held (some d) = not (is_trade d.action)

module _ {A : Type 0} (F : Number A) where
  -- the checks on the order's prices and the validation's figures
  unfoldable pub check_figures : ValidationResult A → Order A → Safety A
  check_figures v o = elim o.stop_loss [
    | none ↦ unsafe (some order_003)
    | some sl ↦ elim o.take_profit [
      | none ↦ unsafe (some take_profit_missing)
      | some tp ↦ elim v.quantity [
        | none ↦ unsafe (some sizing)
        | some q ↦
            if F.leb q (Number.nil F)
            then unsafe (some sizing)
            else if leb (or_else v.final_leverage 0) 0
            then unsafe (some leverage)
            else safe (record { quantity = q; take_profit = tp; stop_loss = sl })
      ]
    ]
  ]

  -- `_local_execution_safety`
  unfoldable pub local_execution_safety :
      ExecutionRequest A → ValidationResult A → Order A → Safety A
  unfolding check_figures
  local_execution_safety req v o =
      if not v.approved
      then unsafe v.rejection_code
      else if is_some req.approved_validation && not (is_some req.final_decision)
      then unsafe (some final_decision_missing)
      else if is_some req.approved_validation && not (is_some req.candidate)
      then unsafe (some candidate_missing)
      else if is_held req.final_decision
      then unsafe (some final_decision_hold)
      else if not (is_trade o.direction)
      then unsafe (some invalid_direction)
      else check_figures v o
