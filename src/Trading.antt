-- ===== src/Trading.antt =====
-- The data that the agents hand to one another: agents/decision/models.py and
-- agents/risk/models.py. Fields that only a report or a log reads (the texts, the reasons, the
-- gross estimates and the fees of a candidate, the identifiers of a position) are left out.
use leverage_agnet.Common.{ℕ, String, Bool, true, false, Option, none, some, List}
use leverage_agnet.Safety.Types.{HaltReason}

-- `FinalAction`, also the direction of a `RawSignal`
pub data Action : Type 0 where
  long short hold : Action

pub data StrategyType : Type 0 where
  scalping intraday trend_following breakout unknown : StrategyType

pub data ReviewAction : Type 0 where
  approve reject : ReviewAction

pub data MarketRegime : Type 0 where
  trend_up trend_down range high_volatility news_event unknown : MarketRegime

-- the codes of a refusal, by their text in the source
pub data Code : Type 0 where
  kill_switch trading_inactive hold_signal order_001 order_002 order_003 order_004 : Code
  low_confidence time_restriction weekly_loss consec_loss position_conflict sizing : Code
  portfolio_risk system_error take_profit_missing unknown_strategy strategy_rr : Code
  leverage_limit margin_ratio_limit expected_profit expected_loss no_liquidation_price : Code
  liquidation_distance spread_limit slippage_limit funding_window regime_volatility : Code
  regime_news holding_time martingale_disabled averaging_down_disabled margin_mode : Code
  shadow_strategy_forbidden final_decision_missing candidate_missing final_decision_hold : Code
  invalid_direction leverage safety_gate_blocked : Code
  -- the halt reason of a `SafetyDecision`
  safety_gate : HaltReason → Code

pub record RawSignal (A : Type 0) : Type 0 where
  pub direction : Action
  pub coin : String
  pub symbol : String
  pub confidence : A
  pub entry_price : A
  pub take_profit : Option A
  pub stop_loss : Option A
  pub leverage : ℕ

-- `TradeCandidate`. A leverage is a natural number: a negative one, which the code neither makes
-- nor rejects, is left out.
pub record TradeCandidate (A : Type 0) : Type 0 where
  pub action : Action
  pub coin : String
  pub symbol : String
  pub strategy_type : StrategyType
  pub expected_holding_minutes : ℕ
  pub entry_price : A
  pub stop_loss : Option A
  pub take_profit : Option A
  pub leverage : ℕ
  pub margin_ratio : A
  pub notional_size : A
  pub actual_rr : A
  pub min_required_rr : A
  pub expected_net_profit : Option A
  pub expected_net_loss : Option A
  pub liquidation_price : Option A
  pub spread_bps : A
  pub slippage_bps : A

pub record ReviewResult (A : Type 0) : Type 0 where
  pub review_action : ReviewAction
  pub confidence : A
  pub critical_contradiction : Bool

-- the action that a legacy signal asks for first
pub data PreAction : Type 0 where
  close_existing dca : PreAction

-- the warnings that go with an approval
pub data Warning : Type 0 where
  daily_loss_warning daily_loss_caution dca_entry reverse_entry leverage_capped : Warning

pub record ValidationResult (A : Type 0) : Type 0 where
  pub approved : Bool
  pub rejection_code : Option Code
  pub quantity : Option A
  pub final_leverage : Option ℕ
  pub margin_required_usdt : Option A
  pub max_loss_usdt : Option A
  pub max_profit_usdt : Option A
  pub rr_ratio : Option A
  pub pre_action : Option PreAction
  pub warnings : List Warning
  pub failed_checks : List Code

-- `ValidationResult(approved=False, rejection_code=code, failed_checks=checks)`
abbrev pub refusal : {A : Type 0} → Code → List Warning → List Code → ValidationResult A
refusal code warnings checks = record {
  approved = false;
  rejection_code = some code;
  quantity = none;
  final_leverage = none;
  margin_required_usdt = none;
  max_loss_usdt = none;
  max_profit_usdt = none;
  rr_ratio = none;
  pre_action = none;
  warnings = warnings;
  failed_checks = checks;
}

-- `FinalDecision`, less its reason
pub record FinalDecision (A : Type 0) : Type 0 where
  pub action : Action
  pub candidate : Option (TradeCandidate A)
  pub ai_review : Option (ReviewResult A)
  pub risk_result : Option (ValidationResult A)

-- Python's `==` on the actions
abbrev pub is_trade : Action → Bool
is_trade long = true
is_trade short = true
is_trade hold = false
