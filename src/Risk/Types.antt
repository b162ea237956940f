-- ===== src/Risk/Types.antt =====
-- agents/risk/models.py and constants.py, less `RawSignal` and `ValidationResult`, which are in
-- Trading, and less the constants that no modelled code reads.
use leverage_agnet.Portfolio.Types.{RiskProfile}
use leverage_agnet.Redis.{Field}
use text.Mathlib.Text.{◌==◌ as ◌=text=◌}
use leverage_agnet.Common.{List, if◌then◌else◌, Option, ℕ, String, Bool}
use leverage_agnet.Common.Number.{Number}
use leverage_agnet.Trading.{Action}
use leverage_agnet.Safety.Types.{UserId}

pub data Plan : Type 0 where
  free pro elite : Plan
  other_plan : Plan

-- Hours are texts "HH:MM", as lists of their code points.
pub record UserContext (A : Type 0) : Type 0 where
  pub user_id : UserId
  pub plan : Plan
  pub risk_profile : RiskProfile
  pub risk_per_trade : A
  pub max_leverage : ℕ
  pub max_concurrent_positions : ℕ
  pub daily_loss_limit_pct : A
  pub is_trading_active : Bool
  pub allowed_hours_start : Option (List ℕ)
  pub allowed_hours_end : Option (List ℕ)

pub record AccountState (A : Type 0) : Type 0 where
  pub available_balance : A
  pub total_balance : A
  pub open_positions_risk_usdt : A

pub record PositionSizingResult (A : Type 0) : Type 0 where
  pub quantity : A
  pub margin_used : A
  pub position_value : A
  pub max_loss : A
  pub max_profit : A
  pub final_leverage : ℕ

-- what the checks read of an `OpenPosition`
pub record OpenPosition : Type 0 where
  pub direction : Action
  pub dca_count : ℕ

-- `HaltState`, less its reason
pub record HaltState (A : Type 0) : Type 0 where
  pub is_halted : Bool
  pub trigger : Option (Field A)
  pub until : Option (Field A)
  pub is_global : Bool

abbrev pub system_max_leverage : ℕ
system_max_leverage = 20

-- `PLAN_MAX_LEVERAGE.get(plan, 5)`
abbrev pub plan_max_leverage : Plan → ℕ
plan_max_leverage free = 5
plan_max_leverage pro = 10
plan_max_leverage elite = 20
plan_max_leverage other_plan = 5

-- `PLAN_MAX_POSITIONS.get(plan, 1)`
abbrev pub plan_max_positions : Plan → ℕ
plan_max_positions free = 1
plan_max_positions pro = 5
plan_max_positions elite = 20
plan_max_positions other_plan = 1

abbrev pub consecutive_loss_cooldown : ℕ
consecutive_loss_cooldown = 3

abbrev pub consecutive_loss_halt : ℕ
consecutive_loss_halt = 5

abbrev pub cooldown_minutes : ℕ
cooldown_minutes = 30

abbrev pub max_dca_count : ℕ
max_dca_count = 2

module _ {A : Type 0} (F : Number A) where
  abbrev pub max_portfolio_risk : A
  max_portfolio_risk = F.decimal 10 2

  abbrev pub max_portfolio_risk_aggressive : A
  max_portfolio_risk_aggressive = F.decimal 15 2

  abbrev pub max_single_position_margin_ratio : A
  max_single_position_margin_ratio = F.decimal 20 2

  abbrev pub margin_buffer_ratio : A
  margin_buffer_ratio = F.decimal 110 2

  abbrev pub min_rr_ratio : A
  min_rr_ratio = F.decimal 20 1

  abbrev pub min_confidence : A
  min_confidence = F.decimal 60 2

  abbrev pub daily_loss_warning_pct : A
  daily_loss_warning_pct = F.decimal 50 2

  abbrev pub daily_loss_caution_pct : A
  daily_loss_caution_pct = F.decimal 80 2

  abbrev pub daily_loss_halt_pct : A
  daily_loss_halt_pct = F.decimal 100 2

  abbrev pub weekly_loss_halt_pct : A
  weekly_loss_halt_pct = F.decimal 100 2

  -- `BINANCE_LOT_SIZES` and `BINANCE_MIN_NOTIONAL`
  abbrev pub lot_size : String → A
  lot_size symbol =
      if symbol =text= "BTCUSDT"
      then F.decimal 1 3
      else if symbol =text= "ETHUSDT"
      then F.decimal 1 2
      else F.decimal 1 3

  abbrev pub min_notional : A
  min_notional = F.decimal 50 1
