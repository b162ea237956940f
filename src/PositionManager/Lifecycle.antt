-- ===== src/PositionManager/Lifecycle.antt =====
-- agents/position_manager/lifecycle.py.
use leverage_agnet.Common.{
  not, if◌then◌else◌, ◌&&◌, true, false, some, none, ◌==◌, Option, ℕ, String, Bool,
}
use leverage_agnet.Common.Calendar.{Time}
use leverage_agnet.Common.Number
use leverage_agnet.Common.Number.{Number}
use leverage_agnet.Trading.{ValidationResult, RawSignal, Action}
use leverage_agnet.Safety.Types.{UserId}
use leverage_agnet.PositionManager.Types.{
  is_open, maintenance_margin_rate, OpenResult, CloseResult, is_long, PositionState, status_open,
  closed, partially_closed, raises, ok, assertion_error, value_error, type_error, division_by_zero,
  Result,
}

module _ {A : Type 0} (F : Number A) where
  -- `_calc_liquidation_price`, for a leverage that is not 0
  unfoldable pub calc_liquidation_price : Action → A → ℕ → A
  calc_liquidation_price direction entry leverage =
      let share = F.div (Number.one F) (F.decimal leverage 0) in
      if is_long direction
      then F.mul entry (F.add (F.sub (Number.one F) share) (maintenance_margin_rate F))
      else F.mul entry (F.sub (F.add (Number.one F) share) (maintenance_margin_rate F))

  -- a position from figures that are all there
  abbrev pub opened :
      A → UserId → RawSignal A → Option A → A → A → A → Option A → ℕ → Time → OpenResult A
  opened fee_rate user_id signal risk stop_loss take_profit quantity margin leverage now = record {
    position = record {
      user_id = user_id;
      coin = signal.coin;
      symbol = signal.symbol;
      direction = signal.direction;
      status = status_open;
      entry_price = signal.entry_price;
      take_profit = take_profit;
      stop_loss = stop_loss;
      liquidation_price = calc_liquidation_price signal.direction signal.entry_price leverage;
      current_price = signal.entry_price;
      quantity = quantity;
      original_quantity = quantity;
      leverage = leverage;
      margin_used = margin;
      original_margin = margin;
      original_risk_usdt = risk;
      realized_pnl = Number.nil F;
      dca_count = 0;
      opened_at = now;
      closed_at = none;
      close_reason = none;
    };
    entry_fee = F.quantize 4 (F.mul (F.mul quantity signal.entry_price) fee_rate);
  }

  -- From the validation's figures on. A missing quantity or leverage raises where it is computed
  -- with; a missing margin is stored.
  unfoldable pub open_figures :
      A
      → UserId
      → RawSignal A
      → Option A
      → A
      → A
      → Time
      → Option A
      → Option ℕ
      → Option A
      → Result (OpenResult A)
  open_figures fee_rate user_id signal risk sl tp now none lev margin = raises type_error
  open_figures fee_rate user_id signal risk sl tp now (some q) none margin = raises type_error
  open_figures fee_rate user_id signal risk sl tp now (some q) (some lev) margin =
      if lev == 0
      then raises division_by_zero
      else ok (opened fee_rate user_id signal risk sl tp q margin lev now)

  -- the asserts on the stop and the target
  unfoldable pub open_with :
      A
      → UserId
      → RawSignal A
      → ValidationResult A
      → Time
      → Option A
      → Option A
      → Result (OpenResult A)
  open_with fee_rate user_id signal v now none tp = raises assertion_error
  open_with fee_rate user_id signal v now (some sl) none = raises assertion_error
  open_with fee_rate user_id signal v now (some sl) (some tp) =
      open_figures fee_rate user_id signal v.max_loss_usdt sl tp now v.quantity v.final_leverage
        v.margin_required_usdt

  unfoldable pub open_position :
      A → UserId → RawSignal A → ValidationResult A → Time → Result (OpenResult A)
  open_position fee_rate user_id signal v now =
      if not v.approved
      then raises assertion_error
      else open_with fee_rate user_id signal v now signal.stop_loss signal.take_profit

  -- `_calc_pnl`
  abbrev pub gross_pnl : Action → A → A → A → A
  gross_pnl direction entry close qty =
      if is_long direction then F.mul (F.sub close entry) qty else F.mul (F.sub entry close) qty

  abbrev pub exit_fee : A → A → A → A
  exit_fee close qty fee_rate = F.mul (F.mul qty close) fee_rate

  -- Python's truth of a number
  abbrev pub is_zero : A → Bool
  is_zero x = F.leb x (Number.nil F) && F.leb (Number.nil F) x

  -- `net_pnl_q / margin * 100 if margin else 0`
  abbrev pub pnl_pct : A → Option A → A
  pnl_pct net none = Number.nil F
  pnl_pct net (some margin) =
      if is_zero margin then Number.nil F else F.mul (F.div net margin) (F.decimal 100 0)

  -- the net profit that a close of a quantity books
  abbrev pub net_pnl : A → PositionState A → A → A → A
  net_pnl fee_rate p close qty =
      F.quantize 2
        (F.sub (gross_pnl p.direction p.entry_price close qty) (exit_fee close qty fee_rate))

  -- what `close_position` makes of an open position
  abbrev pub closed_result : A → PositionState A → A → String → Time → CloseResult A
  closed_result fee_rate p close reason now =
      let net = net_pnl fee_rate p close p.quantity in
      record {
        position = record p {
          status = closed;
          closed_at = some now;
          close_reason = some reason;
          current_price = close;
          realized_pnl = F.add p.realized_pnl net;
        };
        closed_quantity = p.quantity;
        gross_pnl = F.quantize 2 (gross_pnl p.direction p.entry_price close p.quantity);
        fee = F.quantize 4 (exit_fee close p.quantity fee_rate);
        net_pnl = net;
        pnl_pct = F.quantize 2 (pnl_pct net p.margin_used);
        is_partial = false;
        close_reason = reason;
      }

  unfoldable pub close_position : A → PositionState A → A → String → Time → Result (CloseResult A)
  close_position fee_rate p close reason now =
      if not (is_open p)
      then raises assertion_error
      else ok (closed_result fee_rate p close reason now)

  -- what `partial_close` makes of an open position, from its margin on
  abbrev pub partial_result : A → PositionState A → A → A → A → Option A → Result (CloseResult A)
  partial_result fee_rate p close ratio close_qty none = raises type_error
  partial_result fee_rate p close ratio close_qty (some used) =
      let net = net_pnl fee_rate p close close_qty in
      let close_margin = F.quantize 4 (F.mul used ratio) in
      ok (record {
        position = record p {
          quantity = F.sub p.quantity close_qty;
          margin_used = some (F.sub used close_margin);
          realized_pnl = F.add p.realized_pnl net;
          status = partially_closed;
          current_price = close;
        };
        closed_quantity = close_qty;
        gross_pnl = F.quantize 2 (gross_pnl p.direction p.entry_price close close_qty);
        fee = F.quantize 4 (exit_fee close close_qty fee_rate);
        net_pnl = net;
        pnl_pct = F.quantize 2 (pnl_pct net (some close_margin));
        is_partial = true;
        close_reason = "partial";
      })

  unfoldable pub partial_close : A → PositionState A → A → A → Result (CloseResult A)
  partial_close fee_rate p close ratio =
      let close_qty = F.quantize_down 3 (F.mul p.quantity ratio) in
      if not (is_open p)
      then raises assertion_error
      else if not (F.ltb (Number.nil F) ratio && F.ltb ratio (Number.one F))
      then raises value_error
      else if F.leb close_qty (Number.nil F)
      then raises value_error
      else partial_result fee_rate p close ratio close_qty p.margin_used
