-- ===== src/Execution/Tests.antt =====
-- Runs of the engine against an exchange that fills every order, or every order but a stop.
use leverage_agnet.Common.{
  refl, suc, if◌then◌else◌, Option, ℕ, ◌⊎◌, ◌≡◌, Bool, [], true, false, some, none,
}
use leverage_agnet.Common.Integer.{ℤ, pos, whole}
use leverage_agnet.Trading.{
  FinalDecision, RawSignal, ValidationResult, TradeCandidate, intraday, long,
}
use leverage_agnet.Safety.Adapter.{Holds}
use leverage_agnet.Safety.Order.{verdict}
use leverage_agnet.Safety.Store.{in_memory-IsLawful, memory_view, in_memory, empty_store, InMemory}
use leverage_agnet.Safety.Types.{default_config, new_emergency, SafetyConfig}
use leverage_agnet.Execution.Cases.{IsReached}
use leverage_agnet.Execution.Engine.{Config, execute, execute_with, execute_validated, after_checks}
use leverage_agnet.Execution.Gated.{execute-verdict, gated}
use leverage_agnet.Execution.Guards.{execute-IsGuarded, IsGuarded}
use leverage_agnet.Execution.Orders.{
  submit, place_stop, place_missing, retry_protection, protect, place_all, after_decision, ask_gate,
}
use leverage_agnet.Execution.Tickets.{
  build_emergency_close_ticket, build_sl_ticket, build_tp_ticket, build_entry_ticket,
  local_execution_safety,
}
use leverage_agnet.Execution.Trail.{execute-Trail, IsTrailed}
use leverage_agnet.Execution.Types.{
  Services, FilledOrder, Run, ExecutionRequest, OrderTicket, other_version, stop_loss, live,
}

abbrev pub buy_btc : TradeCandidate ℤ
buy_btc = record {
  action = long;
  coin = "BTC";
  symbol = "BTCUSDT";
  strategy_type = intraday;
  expected_holding_minutes = 60;
  entry_price = pos 100;
  stop_loss = some (pos 90);
  take_profit = some (pos 130);
  leverage = 2;
  margin_ratio = pos 1;
  notional_size = pos 200;
  actual_rr = pos 3;
  min_required_rr = pos 2;
  expected_net_profit = some (pos 50);
  expected_net_loss = some (pos 20);
  liquidation_price = some (pos 60);
  spread_bps = pos 1;
  slippage_bps = pos 1;
}

abbrev pub signal : RawSignal ℤ
signal = record {
  direction = long;
  coin = "BTC";
  symbol = "BTCUSDT";
  confidence = pos 1;
  entry_price = pos 100;
  take_profit = some (pos 130);
  stop_loss = some (pos 90);
  leverage = 2;
}

abbrev pub approval : ValidationResult ℤ
approval = record {
  approved = true;
  rejection_code = none;
  quantity = some (pos 2);
  final_leverage = some 2;
  margin_required_usdt = some (pos 100);
  max_loss_usdt = some (pos 20);
  max_profit_usdt = some (pos 60);
  rr_ratio = some (pos 3);
  pre_action = none;
  warnings = [];
  failed_checks = [];
}

abbrev decision : FinalDecision ℤ
decision = record {
  action = long;
  candidate = some buy_btc;
  ai_review = none;
  risk_result = some approval;
}

abbrev pub buy_request : ExecutionRequest ℤ
buy_request = record {
  signal = signal;
  user_id = 1;
  candidate = some buy_btc;
  final_decision = some decision;
  approved_validation = some approval;
  strategy_version = some other_version;
}

abbrev pub fill : OrderTicket ℤ → FilledOrder ℤ
fill t = record {
  purpose = t.purpose;
  side = t.side;
  quantity = t.quantity;
  avg_fill_price = t.price;
}

-- the world is the number of orders placed; a stop is refused if `stops` is false
abbrev place : Bool → OrderTicket ℤ → ℕ → Option (FilledOrder ℤ) × ℕ
place stops t n = elim t.purpose [
  | stop_loss ↦ (if stops then some (fill t) else none, suc n)
  | _ ↦ (some (fill t), suc n)
]

abbrev exchange : Bool → Services ℤ ℕ
exchange stops = record {
  validate = λ req n. (some approval, n);
  place_order = place stops;
  safety_gate = some (λ u n. (some (record { allowed = true; rejection_code = none }), n));
}

abbrev enabled : Config
enabled = record { live_trading_enabled = true; mode = live }

abbrev begin : Run ℤ ℕ
begin = record { world = 0; sent = [] }

-- five orders: the entry, the target, the stop twice, and the close
unprotected_entry_is_closed :
    let e = execute whole (exchange false) enabled buy_request begin in
    (e.1.world ≡ 5) × (e.0.tp_sl_failed ≡ true) × (e.0.emergency_close_failed ≡ false)
unfolding execute execute_with execute_validated after_checks ask_gate after_decision place_all
    protect retry_protection place_missing place_stop submit local_execution_safety
    build_entry_ticket build_tp_ticket build_sl_ticket build_emergency_close_ticket
unprotected_entry_is_closed = (refl, refl, refl)

execute-IsGuarded_example :
    ((execute whole (exchange true) enabled buy_request begin).1.sent ≡ [])
    ⊎ IsGuarded whole (exchange true) enabled buy_request begin
execute-IsGuarded_example = execute-IsGuarded whole (exchange true) enabled buy_request begin

execute-Trail_example :
    let r' = (execute whole (exchange false) enabled buy_request begin).1 in
    (r'.sent ≡ []) ⊎ IsTrailed whole (exchange false) enabled buy_request begin r'.sent
execute-Trail_example = execute-Trail whole (exchange false) enabled buy_request begin

-- a world that is the in-memory store of the safety layer, with an emergency stop
abbrev stopped : Run ℤ (InMemory ℤ)
stopped = record {
  world = record (empty_store whole) { emergency = record new_emergency { is_active = true } };
  sent = [];
}

abbrev store_only : Holds (InMemory ℤ) (InMemory ℤ)
store_only = record {
  state = λ s. s;
  with_state = λ s w. s;
  clock = λ w. record { at_disconnect = 0; at_daily = 0; at_weekly = 0 };
}

abbrev fills : Services ℤ (InMemory ℤ)
fills = record {
  validate = λ req s. (some approval, s);
  place_order = λ t s. (some (fill t), s);
  safety_gate = none;
}

abbrev trading : SafetyConfig ℤ
trading = record (default_config whole) { live_trading_enabled = true }

abbrev guarded : Services ℤ (InMemory ℤ)
guarded = gated whole (in_memory whole) trading (in_memory-IsLawful whole) store_only fills enabled

execute-verdict_example :
    ((execute whole guarded enabled buy_request stopped).1.sent ≡ [])
    ⊎ ((w : InMemory ℤ) × IsReached fills buy_request stopped w
        × ((verdict trading (memory_view whole w) 1 (store_only.clock w)).allowed ≡ true))
execute-verdict_example =
    execute-verdict whole (in_memory whole) trading (in_memory-IsLawful whole) store_only fills
      enabled buy_request stopped
