-- ===== src/PositionManager/TpSl.antt =====
-- agents/position_manager/tp_sl.py.
use leverage_agnet.Common.{
  ◌&&◌, ◌||◌, not, if◌then◌else◌, true, false, some, none, or_else, Option, Bool,
}
use leverage_agnet.Common.Number
use leverage_agnet.Common.Number.{Number}
use leverage_agnet.Trading.{short, Action}
use leverage_agnet.PositionManager.Types.{
  is_open, is_long, TpSlUpdate, Hit, PositionState, raises, ok, assertion_error, value_error,
  Result, tp_hit, sl_hit,
}

module _ {A : Type 0} (F : Number A) where
  unfoldable pub check_tp_sl : PositionState A → A → Option Hit
  check_tp_sl p price =
      if not (is_open p)
      then none
      else if is_long p.direction
      then (if F.leb p.take_profit price
          then some tp_hit
          else if F.leb price p.stop_loss
          then some sl_hit
          else none)
      else if F.leb price p.take_profit
      then some tp_hit
      else if F.leb p.stop_loss price
      then some sl_hit
      else none

  abbrev is_short : Action → Bool
  is_short short = true
  is_short _ = false

  unfoldable pub update_stop_loss : PositionState A → A → Result (TpSlUpdate A)
  update_stop_loss p new_sl =
      if not (is_open p)
      then raises assertion_error
      else if is_long p.direction && F.leb p.current_price new_sl
      then raises value_error
      else if is_short p.direction && F.leb new_sl p.current_price
      then raises value_error
      else ok (record {
        position = record p { stop_loss = new_sl };
        old_tp = none;
        old_sl = some p.stop_loss;
        new_tp = none;
        new_sl = some new_sl;
      })

  unfoldable pub update_take_profit : PositionState A → A → Result (TpSlUpdate A)
  update_take_profit p new_tp =
      if not (is_open p)
      then raises assertion_error
      else if is_long p.direction && F.leb new_tp p.current_price
      then raises value_error
      else if is_short p.direction && F.leb p.current_price new_tp
      then raises value_error
      else ok (record {
        position = record p { take_profit = new_tp };
        old_tp = some p.take_profit;
        old_sl = none;
        new_tp = some new_tp;
        new_sl = none;
      })

  -- `_calc_breakeven`
  unfoldable pub calc_breakeven : PositionState A → A → A
  calc_breakeven p fee_rate =
      let share = F.mul (F.decimal 2 0) fee_rate in
      if is_long p.direction
      then F.mul p.entry_price (F.add (Number.one F) share)
      else F.mul p.entry_price (F.sub (Number.one F) share)

  -- the three tests that keep the stop where it is
  abbrev pub stays : PositionState A → A → A → Bool
  stays p price breakeven =
      if is_long p.direction
      then F.leb price breakeven || (F.leb breakeven p.stop_loss || F.leb price breakeven)
      else F.leb breakeven price || (F.leb p.stop_loss breakeven || F.leb breakeven price)

  unfoldable pub move_sl_to_breakeven : A → PositionState A → A → Result (Option (TpSlUpdate A))
  move_sl_to_breakeven fee_rate p price =
      let breakeven = calc_breakeven p fee_rate in
      if not (is_open p)
      then raises assertion_error
      else if stays p price breakeven
      then ok none
      else ok (
          some (record {
            position = record p { stop_loss = breakeven; current_price = price };
            old_tp = none;
            old_sl = some p.stop_loss;
            new_tp = none;
            new_sl = some breakeven;
          }))

  unfoldable pub update_tp_and_sl : PositionState A → Option A → Option A → Result (TpSlUpdate A)
  update_tp_and_sl p new_tp new_sl =
      if not (is_open p)
      then raises assertion_error
      else ok (record {
        position = record p {
          take_profit = or_else new_tp p.take_profit;
          stop_loss = or_else new_sl p.stop_loss;
        };
        old_tp = some p.take_profit;
        old_sl = some p.stop_loss;
        new_tp = new_tp;
        new_sl = new_sl;
      })
