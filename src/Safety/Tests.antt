-- ===== src/Safety/Tests.antt =====
-- Runs of the safety gate on the in-memory store, with whole numbers for money.
use leverage_agnet.Common.{
  none, some, true, ap, insert, lookup, ◌+◌, [], ◌≡◌, ◌*◌, ◌∷◌, refl, false,
}
use leverage_agnet.Common.Calendar.{second, day, Time}
use leverage_agnet.Common.Integer.{ℤ, pos, whole}
use leverage_agnet.Trading.{long}
use leverage_agnet.Safety.Adapter.{on_trade_executed}
use leverage_agnet.Safety.Disabling.{on_trade_executed-disables}
use leverage_agnet.Safety.Disconnect.{check_disconnect}
use leverage_agnet.Safety.Drawdown.{check_drawdown, update_balance}
use leverage_agnet.Safety.Emergency.{check_emergency}
use leverage_agnet.Safety.Gate.{check_order_allowed, Readings}
use leverage_agnet.Safety.History.{
  run, step, api_success, lift_daily, lift_drawdown, lift_emergency, order, emergency,
}
use leverage_agnet.Safety.History.Drawdown.{drawdown_blocks_orders}
use leverage_agnet.Safety.History.Emergency.{emergency_blocks_orders}
use leverage_agnet.Safety.KillSwitch.{check_loss, daily, record_loss, Period}
use leverage_agnet.Safety.Losses.{Reads}
use leverage_agnet.Safety.Order.{check_order_allowed-verdict, verdict}
use leverage_agnet.Safety.Store.{
  in_memory-IsLawful, in_memory, empty_store, memory_view, StateStore, InMemory, IsLawful,
}
use leverage_agnet.Safety.Types.{daily_loss_limit, DrawdownState, allow, SafetyConfig, system}
use leverage_agnet.Orchestrator.Types.{PostTradeEvent}

-- live trading, a daily limit of twice and a weekly one of ten times the starting balance
abbrev live : SafetyConfig ℤ
live = record {
  live_trading_enabled = true;
  daily_loss_limit_pct = pos 2;
  weekly_loss_limit_pct = pos 10;
  drawdown_warning_pct = pos 1;
  drawdown_halt_pct = pos 1;
  api_failure_halt_threshold = 3;
  api_failure_halt_minutes = 30;
}

abbrev store : StateStore ℤ (InMemory ℤ)
store = in_memory whole

abbrev law : IsLawful store (memory_view whole)
law = in_memory-IsLawful whole

abbrev fresh : InMemory ℤ
fresh = empty_store whole

abbrev noon : Time
noon = 20000 * day + 43200 * second

abbrev at_noon : Readings
at_noon = record { at_disconnect = noon; at_daily = noon; at_weekly = noon }

abbrev daily_switch : Period ℤ (InMemory ℤ)
daily_switch = daily whole store live

abbrev user_drawdown : InMemory ℤ → DrawdownState ℤ
user_drawdown s = store.get_drawdown_state 1 s

-- user 1's balance of 100, then a fall to 0
abbrev after_100 : InMemory ℤ
after_100 = (update_balance whole store live 1 (pos 100) fresh).1

empty_store_allows : (check_order_allowed whole store live 1 at_noon fresh).0 ≡ allow
unfolding check_order_allowed check_emergency check_disconnect check_loss check_drawdown empty_store
    lookup
empty_store_allows = refl

fall_halts : (update_balance whole store live 1 (pos 0) after_100).0.allowed ≡ false
unfolding update_balance empty_store lookup insert
fall_halts = refl

big_loss_halts : (record_loss whole daily_switch 1 (pos 250) (pos 100) noon fresh).0.allowed ≡ false
unfolding record_loss empty_store lookup insert
big_loss_halts = refl

check_order_allowed-verdict_example :
    (check_order_allowed whole store live 1 at_noon after_100).0
    ≡ verdict live (memory_view whole after_100) 1 at_noon
check_order_allowed-verdict_example =
    check_order_allowed-verdict whole store live law 1 at_noon after_100

emergency_blocks_orders_example :
    let cs = api_success noon ∷ lift_daily 1 ∷ order 2 at_noon ∷ [] in
    let s' = run whole store live cs (step whole store live (emergency 7 system noon) fresh) in
    (check_order_allowed whole store live 1 at_noon s').0.allowed ≡ false
emergency_blocks_orders_example =
    emergency_blocks_orders whole store live law 7 system noon
      (api_success noon ∷ lift_daily 1 ∷ order 2 at_noon ∷ []) 1 at_noon fresh
      (refl, (refl, (refl, tt)))

drawdown_blocks_orders_example :
    let cs = lift_drawdown 2 ∷ lift_emergency ∷ [] in
    let s' = run whole store live cs (update_balance whole store live 1 (pos 0) after_100).1 in
    (check_order_allowed whole store live 1 at_noon s').0.allowed ≡ false
drawdown_blocks_orders_example =
    drawdown_blocks_orders whole store live law 1 (pos 0) (lift_drawdown 2 ∷ lift_emergency ∷ [])
      at_noon after_100 fall_halts (refl, (refl, tt))

reads : Reads daily_switch 1
reads k s = ap (λ v. v.daily 1) (law.set_daily 1 k s)

-- a trade that lost 250 of 100 at noon, and one that won 5
abbrev lost_trade : PostTradeEvent ℤ
lost_trade = record {
  user_id = 1;
  direction = long;
  entry_price = pos 100;
  quantity = pos 1;
  stop_loss = none;
  max_loss_usdt = pos 250;
  period_start_balance = pos 100;
  week_start_balance = pos 100;
  current_balance = pos 100;
  realized_pnl_usdt = none;
}

abbrev won_trade : PostTradeEvent ℤ
won_trade = record lost_trade { realized_pnl_usdt = some (pos 5) }

on_trade_executed-disables_example :
    (on_trade_executed whole store live lost_trade noon noon fresh).0 ≡ some (some daily_loss_limit)
on_trade_executed-disables_example =
    on_trade_executed-disables whole store live lost_trade noon noon fresh refl refl big_loss_halts

balance_passes : (update_balance whole store live 1 (pos 100) fresh).0.allowed ≡ true
unfolding update_balance empty_store lookup
balance_passes = refl
