-- ===== src/Portfolio/Engine.antt =====
-- agents/portfolio/calculator.py: the snapshot and the margin check, and
-- agents/portfolio/engine.py: `can_add_position`.
use leverage_agnet.Portfolio.Exposure.{
  max_concentration, build_symbol_exposures, calc_coin_concentrations, sum_of, all_within,
}
use leverage_agnet.Portfolio.Types.{
  max_single_coin_portfolio_ratio, risk_usdt, max_risk_usdt, notional_value, PortfolioSnapshot,
  AccountContext, PortfolioPosition,
}
use leverage_agnet.Common.{Bool, if◌then◌else◌, false, true, [], length, ◌∷◌, List}
use leverage_agnet.Common.Number
use leverage_agnet.Common.Number.{Number}

-- `empty` for an empty list of positions, `else_value` for another one
abbrev pub unless_empty : {A B : Type 0} → List B → A → A → A
unless_empty [] empty else_value = empty
unless_empty (_ ∷ _) empty else_value = else_value

module _ {A : Type 0} (F : Number A) where
  -- `float(total / available) if available > 0 else 0.0`, rounded
  abbrev pub share_of : A → A → A
  share_of total available =
      F.quantize 6 (if F.ltb (Number.nil F) available then F.div total available else Number.nil F)

  -- `build_snapshot`: without positions the sums are 0, as `_empty_snapshot` has them
  unfoldable pub build_snapshot :
      List (PortfolioPosition A) → AccountContext A → PortfolioSnapshot A
  build_snapshot ps account =
      let available = account.available_balance in
      record {
        available_balance = available;
        total_balance =
            unless_empty ps (available)
              (F.add available (sum_of F (λ (p : PortfolioPosition A). p.unrealized_pnl) ps));
        total_notional = sum_of F (notional_value F) ps;
        total_margin_used = sum_of F (λ (p : PortfolioPosition A). p.margin_used) ps;
        margin_utilization =
            unless_empty ps (Number.nil F)
              (share_of (sum_of F (λ (p : PortfolioPosition A). p.margin_used) ps) available);
        total_risk_usdt = sum_of F (risk_usdt F) ps;
        total_risk_pct =
            unless_empty ps (Number.nil F) (share_of (sum_of F (risk_usdt F) ps) available);
        coin_concentrations =
            calc_coin_concentrations F (build_symbol_exposures F ps)
              (sum_of F (notional_value F) ps);
        max_concentration_coin =
            (max_concentration F (
              calc_coin_concentrations F (build_symbol_exposures F ps)
                (sum_of F (notional_value F) ps))).0;
        max_concentration_pct = unless_empty ps (Number.nil F) (
            F.quantize 6
              (max_concentration F (
                calc_coin_concentrations F (build_symbol_exposures F ps)
                  (sum_of F (notional_value F) ps))).1);
        symbol_exposures = build_symbol_exposures F ps;
        position_count = length ps;
        is_emergency = F.ltb available (F.mul account.initial_balance (F.decimal 10 2));
      }

  -- `can_add_position`, less the reason
  unfoldable pub can_add_position : List (PortfolioPosition A) → AccountContext A → A → Bool
  can_add_position ps account new_risk =
      let snap = build_snapshot ps account in
      if snap.is_emergency
      then false
      else if F.ltb (max_risk_usdt F account) (F.add snap.total_risk_usdt new_risk)
      then false
      else true

  -- `check_single_position_margin`, less the reason
  unfoldable pub check_single_position_margin : PortfolioPosition A → AccountContext A → Bool
  check_single_position_margin p account =
      if F.leb account.available_balance (Number.nil F)
      then false
      else if F.ltb (F.decimal 20 2) (F.div p.margin_used account.available_balance)
      then false
      else true

  -- `check_concentration`, less the reason
  unfoldable pub check_concentration : PortfolioSnapshot A → Bool
  check_concentration snap =
      all_within F (max_single_coin_portfolio_ratio F) snap.coin_concentrations
