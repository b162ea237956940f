-- ===== src/PositionManager/Liquidation.antt =====
-- agents/position_manager/emergency.py.
use leverage_agnet.Common.{arith, if◌then◌else◌, ◌≤◌, ◌≡◌, true, ℕ}
use leverage_agnet.Common.Number
use leverage_agnet.Common.Number.{IsOrdered, Number}
use leverage_agnet.PositionManager.Types.{
  is_long, LiquidationCheck, PositionState, LiquidationAction, warning, nothing, partial_close,
  full_close,
}

module _ {A : Type 0} (F : Number A) where
  -- `_calc_distance`
  unfoldable pub calc_distance : PositionState A → A → A
  calc_distance p price =
      if F.leb price (Number.nil F)
      then Number.nil F
      else if is_long p.direction
      then F.div (F.sub price p.liquidation_price) price
      else F.div (F.sub p.liquidation_price price) price

  -- `_distance_to_action`
  unfoldable pub distance_to_action : A → LiquidationAction
  distance_to_action distance =
      if F.leb distance (F.decimal 2 2)
      then full_close
      else if F.leb distance (F.decimal 3 2)
      then partial_close
      else if F.leb distance (F.decimal 5 2)
      then warning
      else if F.leb distance (F.decimal 10 2)
      then warning
      else nothing

  unfoldable pub check_liquidation_distance : PositionState A → A → LiquidationCheck A
  check_liquidation_distance p price =
      let distance = calc_distance p price in
      record {
        distance_pct = distance;
        action = distance_to_action distance;
        current_price = price;
        liquidation_price = p.liquidation_price;
      }

  abbrev pub severity : LiquidationAction → ℕ
  severity nothing = 0
  severity warning = 1
  severity partial_close = 2
  severity full_close = 3

  -- For ordered numbers, a smaller distance to the liquidation price leads to an action that is
  -- at least as severe.
  pub distance_to_action-severity :
      (ord : IsOrdered F) (a b : A)
      → F.leb a b ≡ true
      → severity (distance_to_action b) ≤ severity (distance_to_action a)
  unfolding distance_to_action
  distance_to_action-severity ord a b h = ground (
    arith,
    ord.leb_trans a b (F.decimal 2 2) h,
    ord.leb_trans a b (F.decimal 3 2) h,
    ord.leb_trans a b (F.decimal 5 2) h,
    ord.leb_trans a b (F.decimal 10 2) h,
  )
