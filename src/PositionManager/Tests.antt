-- ===== src/PositionManager/Tests.antt =====
-- The life of the position that `Execution.Tests` approves.
use leverage_agnet.Common.{arith, ◌∷◌, ◌≤◌, List, ◌≡◌, [], refl, true, false, some, none}
use leverage_agnet.Common.Integer.{ℤ, pos, whole}
use leverage_agnet.Common.Sums.{sum_from}
use leverage_agnet.Execution.Tests.{signal, approval}
use leverage_agnet.PositionManager.Books.{steps-realized, steps-dca_count}
use leverage_agnet.PositionManager.Engine.{tick}
use leverage_agnet.PositionManager.Life.{bookings, Operation, price_tick, set_sl, steps, step}
use leverage_agnet.PositionManager.Lifecycle.{opened, open_position, close_position}
use leverage_agnet.PositionManager.Opening.{open_position-IsFresh, IsFresh, is_ok}
use leverage_agnet.PositionManager.Stops.{IsHit, tick-IsTicked, IsTicked}
use leverage_agnet.PositionManager.TpSl.{check_tp_sl, update_stop_loss}
use leverage_agnet.PositionManager.Types.{
  max_dca_count, TickResult, TpSlUpdate, AccountStats, PositionState, ok, closed,
}

abbrev position : PositionState ℤ
position =
    (opened whole (pos 0) 1 signal (some (pos 20)) (pos 90) (pos 130) (pos 2) (some (pos 100)) 2
      1000).position

abbrev stats : AccountStats ℤ
stats = record {
  daily_loss_usdt = pos 0;
  daily_loss_limit_usdt = pos 100;
  weekly_loss_usdt = pos 0;
  weekly_loss_limit_usdt = pos 300;
  in_cooldown = false;
}

-- the stop is raised, a price comes in, and the price hits the stop
abbrev life : List (Operation ℤ)
life = price_tick (pos 120) 2000 ∷ set_sl (pos 110) ∷ price_tick (pos 105) 3000 ∷ []

abbrev over : PositionState ℤ
over = record position { status = closed; realized_pnl = pos 10 }

hit_stop_books_profit : (steps whole (pos 0) life position).realized_pnl ≡ pos 10
unfolding steps step tick check_tp_sl close_position update_stop_loss
hit_stop_books_profit = refl

steps-realized_example :
    (steps whole (pos 0) life position).realized_pnl
    ≡ sum_from whole (pos 0) (bookings whole (pos 0) life position)
steps-realized_example = steps-realized whole (pos 0) life position

steps-dca_count_example : (steps whole (pos 0) life position).dca_count ≤ max_dca_count
steps-dca_count_example = steps-dca_count whole (pos 0) life position (omega arith)

tick-IsTicked_example :
    (t : TickResult ℤ) × (tick whole (pos 0) position (pos 85) 2000 ≡ ok t)
    × IsHit whole (pos 0) position (pos 85) t.tp_sl_status
    × IsTicked whole (pos 0) position (pos 85) t.tp_sl_status t
tick-IsTicked_example = tick-IsTicked whole (pos 0) position (pos 85) 2000

abbrev raised_stop : TpSlUpdate ℤ
raised_stop = record {
  position = record position { stop_loss = pos 95 };
  old_tp = none;
  old_sl = some (pos 90);
  new_tp = none;
  new_sl = some (pos 95);
}

abbrev at_breakeven : TpSlUpdate ℤ
at_breakeven = record {
  position = record position { stop_loss = pos 100; current_price = pos 120 };
  old_tp = none;
  old_sl = some (pos 90);
  new_tp = none;
  new_sl = some (pos 100);
}

open_position-IsFresh_example :
    let r = open_position whole (pos 0) 1 signal approval 1000 in
    (is_ok r ≡ true) × IsFresh whole (pos 0) signal approval r
open_position-IsFresh_example = open_position-IsFresh whole (pos 0) 1 signal approval 1000
