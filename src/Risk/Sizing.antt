-- ===== src/Risk/Sizing.antt =====
-- agents/risk/sizing.py.
use Prim.Native.Nat.{ℕ, min}
use leverage_agnet.Risk.Types.{
  margin_buffer_ratio, max_single_position_margin_ratio, system_max_leverage, min_notional,
  min_rr_ratio, plan_max_leverage, lot_size, PositionSizingResult, Plan,
}
use leverage_agnet.Common.{
  ◌==◌, ◌||◌, ◌&&◌, not, if◌then◌else◌, String, Bool, Option, false, some, none,
}
use leverage_agnet.Common.Number
use leverage_agnet.Common.Number.{Number}
use leverage_agnet.Trading.{Action}
use leverage_agnet.PositionManager.Types.{is_long}

-- `==` on two numbers
abbrev pub equal : {A : Type 0} → Number A → A → A → Bool
equal F a b = F.leb a b && F.leb b a

unfoldable pub resolve_final_leverage : ℕ → ℕ → Plan → ℕ
resolve_final_leverage ai_recommended user_max plan =
    min (min (min ai_recommended user_max) (plan_max_leverage plan)) system_max_leverage

module _ {A : Type 0} (F : Number A) where
  unfoldable pub round_to_lot_size : A → String → A
  round_to_lot_size quantity symbol =
      F.mul (F.quantize_down 0 (F.div quantity (lot_size F symbol))) (lot_size F symbol)

  abbrev pub profit_distance : A → A → Action → A
  profit_distance entry target direction =
      if is_long direction then F.sub target entry else F.sub entry target

  abbrev pub loss_distance : A → A → Action → A
  loss_distance entry stop direction =
      if is_long direction then F.sub entry stop else F.sub stop entry

  unfoldable pub validate_rr_ratio : A → Option A → A → Action → Bool × A
  validate_rr_ratio entry none stop direction = (false, Number.nil F)
  validate_rr_ratio entry (some target) stop direction =
      if F.leb (loss_distance entry stop direction) (Number.nil F)
      then (false, Number.nil F)
      else if F.leb (profit_distance entry target direction) (Number.nil F)
      then (false, Number.nil F)
      else let rr =
          F.div (profit_distance entry target direction) (loss_distance entry stop direction) in
        (not (F.ltb rr (min_rr_ratio F)), rr)

  abbrev pub reward : A → A → Option A → A → A
  reward entry stop none quantity = Number.nil F
  reward entry stop (some target) quantity =
      F.mul quantity (if F.ltb stop entry then F.sub target entry else F.sub entry target)

  -- `none`: the entry and the stop are the same, or the leverage is 0
  unfoldable pub calculate_position_size :
      A → A → A → A → ℕ → Option A → String → Option (PositionSizingResult A)
  calculate_position_size account_balance risk_per_trade entry stop leverage target symbol =
      let sl_distance = Number.abs F (F.sub entry stop) in
      let quantity =
        round_to_lot_size (F.div (F.mul account_balance risk_per_trade) sl_distance) symbol in
      if equal F sl_distance (Number.nil F) || (leverage == 0)
      then none
      else some (record {
        quantity = quantity;
        margin_used = F.quantize 2 (F.div (F.mul quantity entry) (F.decimal leverage 0));
        position_value = F.quantize 2 (F.mul quantity entry);
        max_loss = F.quantize 2 (F.mul quantity sl_distance);
        max_profit = F.quantize 2 (reward entry stop target quantity);
        final_leverage = leverage;
      })

  unfoldable pub validate_position_size : PositionSizingResult A → A → A → String → Bool
  validate_position_size result available_balance entry symbol =
      if F.ltb result.quantity (lot_size F symbol)
      then false
      else if F.ltb (F.mul result.quantity entry) (min_notional F)
      then false
      else if F.ltb (F.mul available_balance (max_single_position_margin_ratio F))
          result.margin_used
      then false
      else not (F.ltb available_balance (F.mul result.margin_used (margin_buffer_ratio F)))

  unfoldable pub calculate_liquidation_distance : Action → A → A → A
  calculate_liquidation_distance direction current liquidation =
      if equal F current (Number.nil F)
      then Number.nil F
      else if is_long direction
      then F.div (F.sub current liquidation) current
      else F.div (F.sub liquidation current) current

  unfoldable pub recalculate_avg_entry : A → A → A → A → A
  recalculate_avg_entry original_qty original_entry dca_qty dca_entry =
      let total_qty = F.add original_qty dca_qty in
      if equal F total_qty (Number.nil F)
      then dca_entry
      else F.div (F.add (F.mul original_qty original_entry) (F.mul dca_qty dca_entry)) total_qty
