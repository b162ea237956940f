-- ===== src/Decision/Inputs.antt =====
-- What the decision layer reads: the market snapshot, the technical analysis, the aggregated signal,
-- the scores of agents/decision/models.py, and the settings that `_cfg` looks up. An attribute or a
-- key that may be missing is an option.
use leverage_agnet.Common.{if◌then◌else◌, or_else, ℕ, Bool, List, Option, some, none}
use leverage_agnet.Common.Number
use leverage_agnet.Common.Number.{Number}
use leverage_agnet.Trading.{MarketRegime, StrategyType}

pub data Alignment : Type 0 where
  bullish bearish mixed : Alignment

pub data Interval : Type 0 where
  hour_1 hour_4 minute_15 minute_5 day_1 other_interval : Interval

pub record TimeframeAnalysis (A : Type 0) : Type 0 where
  pub alignment : Alignment
  pub bandwidth : A
  pub atr : A
  pub volume_ratio : A
  pub close : Option A

pub record TechnicalResult (A : Type 0) : Type 0 where
  pub analyses : List (Interval × TimeframeAnalysis A)
  pub tech_score : A
  pub latest_close : Option A
  pub technical_atr : Option A
  pub support_levels : List A
  pub resistance_levels : List A

pub data SignalDirection : Type 0 where
  long_signal short_signal no_trade : SignalDirection

pub record StrategySignal (A : Type 0) : Type 0 where
  pub direction : SignalDirection
  pub entry_price : Option A
  pub entry : Option A
  pub stop_loss : Option A
  pub sl : Option A
  pub take_profit : Option A
  pub tp : Option A
  pub leverage : Option ℕ
  pub margin_ratio : Option A

pub record MarketSnapshot (A : Type 0) : Type 0 where
  pub current_price : Option A
  pub price : Option A
  pub mark_price : Option A
  pub news_event : Bool
  pub spread_bps : Option A
  pub spread : Option A
  pub volume_ratio : Option A
  pub vol_ratio : Option A
  pub volume_multiplier : Option A
  pub price_change_pct : Option A
  pub recent_price_change_pct : Option A
  pub price_change_1h_pct : Option A

pub record MarketRegimeResult (A : Type 0) : Type 0 where
  pub regime : MarketRegime
  pub confidence : A

pub record SignalScore (A : Type 0) : Type 0 where
  pub long_score : A
  pub short_score : A
  pub risk_score : A

pub record NewsScore (A : Type 0) : Type 0 where
  pub news_risk : A
  pub no_trade_flag : Bool

pub data CrowdedSide : Type 0 where
  crowded_long crowded_short nobody : CrowdedSide

pub record DerivativesScore (A : Type 0) : Type 0 where
  pub long_score_adjustment : A
  pub short_score_adjustment : A
  pub derivatives_risk : A
  pub crowded_side : CrowdedSide

pub record StrategySelectionResult (A : Type 0) : Type 0 where
  pub strategy_type : StrategyType
  pub expected_holding_minutes : ℕ
  pub min_required_rr : A

-- `config.get(key, default) if config else default`
abbrev pub pick : {C V : Type 0} → (C → Option V) → Option C → V → V
pick get none d = d
pick get (some c) d = or_else (get c) d

-- an attribute of an object that may be missing
abbrev pub read : {C V : Type 0} → (C → V) → Option C → Option V
read get none = none
read get (some c) = some (get c)

abbrev pub read_option : {C V : Type 0} → (C → Option V) → Option C → Option V
read_option get none = none
read_option get (some c) = get c

module _ {A : Type 0} (F : Number A) where
  -- Python's `min(a, b)` keeps the first unless the second is smaller
  abbrev pub min_of : A → A → A
  min_of a b = if F.ltb b a then b else a

  -- `max(low, min(high, value))`
  abbrev pub clamp : A → A → A → A
  clamp value low high = Number.max F low (min_of high value)

  abbrev pub hundred : A
  hundred = F.decimal 100 0
