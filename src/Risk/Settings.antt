-- ===== src/Risk/Settings.antt =====
-- The settings of agents/risk/engine.py, `_cfg`, and the data that a candidate is checked with.
use Prim.Native.Nat.{ℕ}
use leverage_agnet.Common.{
  if◌then◌else◌, or_else, ◌∷◌, Bool, List, Option, false, true, some, none, [],
}
use leverage_agnet.Trading.{MarketRegime, Code, high_volatility, news_event}
use leverage_agnet.Decision.Final.{first_some}

-- The text of a margin mode is compared in lower case.
pub data MarginMode : Type 0 where
  isolated cross : MarginMode

-- the settings that `_cfg` looks up, each of which may be missing
pub record RiskSettings (A : Type 0) : Type 0 where
  pub global_min_risk_reward_ratio : Option A
  pub max_leverage : Option ℕ
  pub max_entry_margin_ratio : Option A
  pub min_expected_net_profit_pct : Option A
  pub min_liq_stop_buffer_pct : Option A
  pub max_slippage_bps : Option A
  pub block_before_funding_minutes : Option ℕ
  pub block_after_funding_minutes : Option ℕ
  pub high_volatility_block : Option Bool
  pub news_event_block : Option Bool
  pub allow_martingale : Option Bool
  pub allow_averaging_down : Option Bool
  pub mode : Option MarginMode

pub record RiskConfig (A : Type 0) : Type 0 where
  pub top : RiskSettings A
  pub decision : Option (RiskSettings A)

-- `_cfg`: the value of the section `decision` goes before the configuration's own
abbrev pub section_setting :
    {A V : Type 0} → (RiskSettings A → Option V) → Option (RiskSettings A) → Option V
section_setting get none = none
section_setting get (some s) = get s

abbrev pub setting : {A V : Type 0} → (RiskSettings A → Option V) → Option (RiskConfig A) → V → V
setting get none d = d
setting get (some c) d = or_else (first_some (section_setting get c.decision) (get c.top)) d

pub record StrategyThresholds (A : Type 0) : Type 0 where
  pub min_risk_reward_ratio : A
  pub max_holding_minutes : ℕ
  pub max_spread_bps : A

pub record FundingContext (A : Type 0) : Type 0 where
  pub minutes_to_funding : Option A
  pub is_funding_window : Bool

-- The tests of a run of checks: the first that holds refuses with its code.
abbrev pub first_refusal : List (Bool × Code) → Option Code
first_refusal [] = none
first_refusal ((refuses, code) ∷ rest) = if refuses then some code else first_refusal rest

abbrev pub is_isolated : MarginMode → Bool
is_isolated isolated = true
is_isolated cross = false

abbrev pub is_volatile : MarketRegime → Bool
is_volatile high_volatility = true
is_volatile _ = false

abbrev pub is_news : MarketRegime → Bool
is_news news_event = true
is_news _ = false
