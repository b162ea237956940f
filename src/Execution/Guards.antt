-- ===== src/Execution/Guards.antt =====
-- No ticket reaches the gateway unless every guard has passed.
use leverage_agnet.Common.{
  not, ◌&&◌, refl, or_else, ◌<◌, is_some, inr, false, arith, inl, some, true, ◌⊎◌, ◌≡◌,
}
use leverage_agnet.Common.Number
use leverage_agnet.Common.Number.{Number}
use leverage_agnet.Trading.{is_trade, ValidationResult}
use leverage_agnet.Execution.Cases.{IsSource, IsReached, gate_allows, execute_cases}
use leverage_agnet.Execution.Engine.{is_fast_exit, execute, Config}
use leverage_agnet.Execution.Tickets.{is_held, safe, Checked, Order, local_execution_safety}
use leverage_agnet.Execution.Types.{Run, ExecutionRequest, Services}

-- what stands behind every ticket
pub record IsGuarded {A W : Type 0} (F : Number A) (svc : Services A W) (config : Config)
    (req : ExecutionRequest A) (r : Run A W) : Type 0 where
  pub is_live : config.live_trading_enabled ≡ true
  pub is_not_shadow : is_fast_exit req.strategy_version ≡ false
  pub validation : ValidationResult A
  pub order : Order A
  pub has_source : IsSource svc req r validation order
  pub is_approved : validation.approved ≡ true
  pub is_decided : is_held req.final_decision ≡ false
  pub has_decision : (is_some req.approved_validation && not (is_some req.final_decision)) ≡ false
  pub has_candidate : (is_some req.approved_validation && not (is_some req.candidate)) ≡ false
  pub is_directed : is_trade order.direction ≡ true
  pub has_stop : is_some order.stop_loss ≡ true
  pub has_target : is_some order.take_profit ≡ true
  pub has_leverage : 0 < or_else validation.final_leverage 0
  pub quantity : A
  pub has_quantity : validation.quantity ≡ some quantity
  pub is_positive : F.leb quantity (Number.nil F) ≡ false
  pub world : W
  pub is_reached : IsReached svc req r world
  pub is_allowed : gate_allows svc.safety_gate req.user_id world ≡ true

module _ {A W : Type 0} (F : Number A) (svc : Services A W) (config : Config) where
  pub local_execution_safety-quantity :
      (req : ExecutionRequest A) (v : ValidationResult A) (o : Order A) (c : Checked A)
      → local_execution_safety F req v o ≡ safe c
      → v.quantity ≡ some c.quantity
  unfolding local_execution_safety
  local_execution_safety-quantity req v o c e = ground arith

  guarded :
      (req : ExecutionRequest A) (v : ValidationResult A) (o : Order A) (c : Checked A)
      (r : Run A W) (w : W)
      → IsReached svc req r w
      → IsSource svc req r v o
      → config.live_trading_enabled ≡ true
      → is_fast_exit req.strategy_version ≡ false
      → v.approved ≡ true
      → local_execution_safety F req v o ≡ safe c
      → gate_allows svc.safety_gate req.user_id w ≡ true
      → IsGuarded F svc config req r
  unfolding local_execution_safety
  guarded req v o c r w reached source live slow ok e allowed = record {
    is_live = live;
    is_not_shadow = slow;
    validation = v;
    order = o;
    has_source = source;
    is_approved = ok;
    is_decided = ground arith;
    has_decision = ground arith;
    has_candidate = ground arith;
    is_directed = ground arith;
    has_stop = ground arith;
    has_target = ground arith;
    has_leverage = ground arith;
    quantity = c.quantity;
    has_quantity = local_execution_safety-quantity req v o c e;
    is_positive = ground arith;
    world = w;
    is_reached = reached;
    is_allowed = allowed;
  }

  -- Either no ticket was handed to the gateway, or live trading is on, the strategy is not the
  -- shadow one, and the validation approved with a positive quantity and leverage: the one that
  -- came with the request, or else the validator's answer to it. The order, which is then the
  -- request's candidate, or its signal, has a direction, a stop and a target. A validation that came
  -- with the request came with a candidate and a decision, which is LONG or SHORT. And the safety
  -- gate, where there is one, allowed the order in the world of the call or in the one that the
  -- validator left.
  pub execute-IsGuarded :
      (req : ExecutionRequest A) (r : Run A W)
      → ((execute F svc config req r).1.sent ≡ r.sent) ⊎ IsGuarded F svc config req r
  execute-IsGuarded req r =
      execute_cases F svc config (λ e. (e.1.sent ≡ r.sent) ⊎ IsGuarded F svc config req r) req r
        (record {
          refuses = λ mode code v w. inl refl;
          simulates = λ v w off. inl refl;
          orders = λ v o c w w' reached source live slow ok e allowed.
              inr (guarded req v o c r w reached source live slow ok e allowed);
        })
