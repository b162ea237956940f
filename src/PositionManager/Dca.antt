-- ===== src/PositionManager/Dca.antt =====
-- agents/position_manager/dca.py.
use leverage_agnet.Common.{
  leb, not, if◌then◌else◌, true, false, some, none, suc, ◌==◌, Option, Bool,
}
use leverage_agnet.Common.Number
use leverage_agnet.Common.Number.{Number}
use leverage_agnet.Trading.{ValidationResult, hold, long, short, Action}
use leverage_agnet.PositionManager.Lifecycle.{calc_liquidation_price, is_zero}
use leverage_agnet.PositionManager.Types.{
  max_dca_count, drawdown_pct, DcaReason, DcaResult, is_long, AccountStats, PositionState, raises,
  ok, assertion_error, type_error, division_by_zero, Result, daily_loss, cooldown, weekly_loss,
  drawdown, premature, too_risky, limit_reached, direction_differs, eligible,
}

abbrev pub same_direction : Action → Action → Bool
same_direction long long = true
same_direction short short = true
same_direction hold hold = true
same_direction _ _ = false

module _ {A : Type 0} (F : Number A) where
  -- `_estimate_position_risk`
  unfoldable pub estimate_position_risk : PositionState A → A
  estimate_position_risk p =
      if is_long p.direction
      then F.mul (F.sub p.entry_price p.stop_loss) p.quantity
      else F.mul (F.sub p.stop_loss p.entry_price) p.quantity

  -- a loss of at least a share of its limit, where there is a limit
  abbrev pub over : A → A → A → Bool
  over share loss limit =
      if F.ltb (Number.nil F) limit then F.leb share (F.div loss limit) else false

  abbrev pub drawdown_test : Result A → Result DcaReason
  drawdown_test (raises f) = raises f
  drawdown_test (ok d) = ok (if F.leb (F.decimal 5 2) d then drawdown else eligible)

  -- rule 4 and the prohibitions, once the first three rules hold
  unfoldable pub check_dca_risk : PositionState A → A → AccountStats A → A → Result DcaReason
  check_dca_risk p dca_risk account risk =
      if F.ltb (F.mul risk (F.decimal 20 1)) (F.add (estimate_position_risk p) dca_risk)
      then ok too_risky
      else if over (F.decimal 50 2) account.daily_loss_usdt account.daily_loss_limit_usdt
      then ok daily_loss
      else if account.in_cooldown
      then ok cooldown
      else if over (F.decimal 75 2) account.weekly_loss_usdt account.weekly_loss_limit_usdt
      then ok weekly_loss
      else drawdown_test (drawdown_pct F p)

  -- a position without its original risk raises where that is computed with
  abbrev pub with_risk : PositionState A → A → AccountStats A → Option A → Result DcaReason
  with_risk p dca_risk account none = raises type_error
  with_risk p dca_risk account (some risk) = check_dca_risk p dca_risk account risk

  unfoldable pub check_dca_eligibility :
      PositionState A → Action → A → A → A → AccountStats A → Result DcaReason
  check_dca_eligibility p dca_direction dca_entry dca_risk atr account =
      if not (same_direction p.direction dca_direction)
      then ok direction_differs
      else if leb max_dca_count p.dca_count
      then ok limit_reached
      else if F.ltb (Number.abs F (F.sub dca_entry p.entry_price)) (F.mul atr (F.decimal 10 1))
      then ok premature
      else with_risk p dca_risk account p.original_risk_usdt

  -- `_recalculate_avg_entry`
  unfoldable pub recalculate_avg_entry : A → A → A → A → A
  recalculate_avg_entry qty entry dca_qty dca_entry =
      F.quantize 2 (F.div (F.add (F.mul qty entry) (F.mul dca_qty dca_entry)) (F.add qty dca_qty))

  -- the new margin is computed before the new liquidation price
  abbrev pub apply_margins :
      A → PositionState A → A → A → Option A → Option A → Result (DcaResult A)
  apply_margins fee_rate p dca_entry q none margin = raises type_error
  apply_margins fee_rate p dca_entry q (some used) none = raises type_error
  apply_margins fee_rate p dca_entry q (some used) (some margin) =
      let average = recalculate_avg_entry p.quantity p.entry_price q dca_entry in
      if p.leverage == 0
      then raises division_by_zero
      else ok (record {
        position = record p {
          entry_price = average;
          quantity = F.add p.quantity q;
          margin_used = some (F.add used margin);
          liquidation_price = calc_liquidation_price F p.direction average p.leverage;
          dca_count = suc p.dca_count;
        };
        added_quantity = q;
        added_margin = margin;
        new_avg_entry = average;
        dca_fee = F.quantize 4 (F.mul (F.mul q dca_entry) fee_rate);
      })

  -- from the validation's figures on
  unfoldable pub apply_figures :
      A → PositionState A → A → Option A → Option A → Result (DcaResult A)
  apply_figures fee_rate p dca_entry none margin = raises type_error
  apply_figures fee_rate p dca_entry (some q) margin =
      if is_zero F (F.add p.quantity q)
      then raises division_by_zero
      else apply_margins fee_rate p dca_entry q p.margin_used margin

  unfoldable pub apply_dca : A → PositionState A → A → ValidationResult A → Result (DcaResult A)
  apply_dca fee_rate p dca_entry v =
      if not v.approved
      then raises assertion_error
      else apply_figures fee_rate p dca_entry v.quantity v.margin_required_usdt
