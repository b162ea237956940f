-- ===== src/Portfolio/Types.antt =====
-- agents/portfolio/models.py.
use leverage_agnet.Common.{List, if◌then◌else◌, ℕ, Bool, String}
use leverage_agnet.Common.Number
use leverage_agnet.Common.Number.{Number}
use leverage_agnet.Trading.{Action}
use leverage_agnet.PositionManager.Types.{is_long}

pub record PortfolioPosition (A : Type 0) : Type 0 where
  pub coin : String
  pub symbol : String
  pub direction : Action
  pub entry_price : A
  pub current_price : A
  pub stop_loss : A
  pub quantity : A
  pub leverage : ℕ
  pub margin_used : A
  pub unrealized_pnl : A

pub data RiskProfile : Type 0 where
  conservative moderate aggressive : RiskProfile

pub record AccountContext (A : Type 0) : Type 0 where
  pub available_balance : A
  pub initial_balance : A
  pub risk_profile : RiskProfile

pub record SymbolExposure (A : Type 0) : Type 0 where
  pub coin : String
  pub symbol : String
  pub direction : Action
  pub notional_value : A
  pub margin_used : A
  pub unrealized_pnl : A
  pub risk_usdt : A
  pub portfolio_weight : A

pub record PortfolioSnapshot (A : Type 0) : Type 0 where
  pub available_balance : A
  pub total_balance : A
  pub total_notional : A
  pub total_margin_used : A
  pub margin_utilization : A
  pub total_risk_usdt : A
  pub total_risk_pct : A
  pub coin_concentrations : List (String × A)
  pub max_concentration_coin : String
  pub max_concentration_pct : A
  pub symbol_exposures : List (SymbolExposure A)
  pub position_count : ℕ
  pub is_emergency : Bool

module _ {A : Type 0} (F : Number A) where
  -- `notional_value`
  abbrev pub notional_value : PortfolioPosition A → A
  notional_value p = F.mul p.quantity p.current_price

  -- `risk_usdt`
  abbrev pub risk_usdt : PortfolioPosition A → A
  risk_usdt p = Number.max F (Number.nil F) (
      if is_long p.direction
      then F.mul (F.sub p.entry_price p.stop_loss) p.quantity
      else F.mul (F.sub p.stop_loss p.entry_price) p.quantity)

  -- `portfolio_risk_limit`
  abbrev pub portfolio_risk_limit : RiskProfile → A
  portfolio_risk_limit aggressive = F.decimal 15 2
  portfolio_risk_limit _ = F.decimal 10 2

  -- `max_risk_usdt`
  abbrev pub max_risk_usdt : AccountContext A → A
  max_risk_usdt account =
      F.mul account.available_balance (portfolio_risk_limit account.risk_profile)

  abbrev pub max_single_coin_portfolio_ratio : A
  max_single_coin_portfolio_ratio = F.decimal 50 2
