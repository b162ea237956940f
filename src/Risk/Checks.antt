-- ===== src/Risk/Checks.antt =====
-- agents/risk/engine.py: the checks of `RiskEngine.validate_candidate` that ask no store, with the
-- thresholds of agents/decision/constants.py. The tests of one run of checks are a list in the
-- code's order, each with its code.
use Prim.Native.Nat.{ℕ, min}
use leverage_agnet.Risk.Settings.{
  isolated, is_isolated, is_news, is_volatile, setting, FundingContext, StrategyThresholds,
  RiskConfig,
}
use leverage_agnet.Risk.Types.{AccountState, OpenPosition, UserContext}
use leverage_agnet.Risk.Validators.{check_portfolio_risk, positive, check_position_count_limit}
use leverage_agnet.Common.{
  is_some, ◌==◌, not, if◌then◌else◌, ltb, ◌||◌, or_else, ◌&&◌, ◌∷◌, Bool, List, Option, false, true,
  some, none, [],
}
use leverage_agnet.Common.Number
use leverage_agnet.Common.Number.{Number}
use leverage_agnet.Trading.{
  unknown, Action, StrategyType, TradeCandidate, MarketRegime, Code, scalping, intraday,
  trend_following, breakout, is_trade, hold_signal, trading_inactive, order_002, order_003,
  order_004, portfolio_risk, take_profit_missing, unknown_strategy, strategy_rr, position_conflict,
  leverage_limit, margin_ratio_limit, expected_profit, expected_loss, no_liquidation_price,
  liquidation_distance, spread_limit, slippage_limit, funding_window, regime_volatility,
  regime_news, holding_time, martingale_disabled, averaging_down_disabled, margin_mode,
}
use leverage_agnet.Decision.Final.{is_unknown, too_small}
use leverage_agnet.PositionManager.Types.{is_long}

module _ {A : Type 0} (F : Number A) where
  -- `STRATEGY_THRESHOLDS.get`
  unfoldable pub strategy_thresholds : StrategyType → Option (StrategyThresholds A)
  strategy_thresholds scalping = some (record {
    min_risk_reward_ratio = F.decimal 20 1;
    max_holding_minutes = 10;
    max_spread_bps = F.decimal 30 1;
  })
  strategy_thresholds intraday = some (record {
    min_risk_reward_ratio = F.decimal 20 1;
    max_holding_minutes = 60;
    max_spread_bps = F.decimal 50 1;
  })
  strategy_thresholds trend_following = some (record {
    min_risk_reward_ratio = F.decimal 20 1;
    max_holding_minutes = 240;
    max_spread_bps = F.decimal 80 1;
  })
  strategy_thresholds breakout = some (record {
    min_risk_reward_ratio = F.decimal 20 1;
    max_holding_minutes = 120;
    max_spread_bps = F.decimal 60 1;
  })
  strategy_thresholds unknown = none

  abbrev pub threshold_rr : Option (StrategyThresholds A) → A
  threshold_rr none = Number.nil F
  threshold_rr (some t) = t.min_risk_reward_ratio

  abbrev pub strategy_min_rr : TradeCandidate A → A
  strategy_min_rr c =
      Number.max F c.min_required_rr (threshold_rr (strategy_thresholds c.strategy_type))

  abbrev pub global_min_rr : Option (RiskConfig A) → A
  global_min_rr config = setting (λ s. s.global_min_risk_reward_ratio) config (F.decimal 20 1)

  abbrev pub leverage_cap : UserContext A → Option (RiskConfig A) → ℕ
  leverage_cap ctx config = min (setting (λ s. s.max_leverage) config 10) ctx.max_leverage

  abbrev pub margin_cap : Option (RiskConfig A) → A
  margin_cap config = setting (λ s. s.max_entry_margin_ratio) config (F.decimal 5 2)

  -- from the activity of the user to the margin ratio
  unfoldable pub entry_tests :
      TradeCandidate A → UserContext A → Option (RiskConfig A) → List (Bool × Code)
  entry_tests c ctx config =
      (not ctx.is_trading_active, trading_inactive)
      ∷ (not (is_trade c.action), hold_signal)
      ∷ (not (positive F c.stop_loss), order_003)
      ∷ (not (positive F c.take_profit), take_profit_missing)
      ∷ (is_unknown c.strategy_type, unknown_strategy)
      ∷ (F.ltb c.actual_rr (strategy_min_rr c), strategy_rr)
      ∷ (F.ltb c.actual_rr (global_min_rr config), order_004)
      ∷ (ltb (leverage_cap ctx config) c.leverage, leverage_limit)
      ∷ (F.ltb (margin_cap config) c.margin_ratio, margin_ratio_limit)
      ∷ []

  -- the loss that the daily limit is tested with
  abbrev pub projected_loss : TradeCandidate A → UserContext A → AccountState A → A
  projected_loss c ctx account =
      or_else c.expected_net_loss (F.mul account.total_balance ctx.risk_per_trade)

  abbrev pub min_profit : TradeCandidate A → Option (RiskConfig A) → A
  min_profit c config =
      F.mul c.notional_size (setting (λ s. s.min_expected_net_profit_pct) config (F.decimal 1 3))

  abbrev pub exceeds : Option A → A → Bool
  exceeds none limit = true
  exceeds (some a) limit = F.ltb limit a

  -- whether the liquidation lies beyond the stop by the buffer
  abbrev pub liquidation_safe : Action → Option A → Option A → A → Bool
  liquidation_safe action none liquidation buffer = false
  liquidation_safe action (some stop) none buffer = false
  liquidation_safe action (some stop) (some liquidation) buffer =
      if is_long action
      then F.ltb liquidation (F.mul stop (F.sub (Number.one F) buffer))
      else F.ltb (F.mul stop (F.add (Number.one F) buffer)) liquidation

  abbrev pub liquidation_buffer : Option (RiskConfig A) → A
  liquidation_buffer config = setting (λ s. s.min_liq_stop_buffer_pct) config (F.decimal 1 3)

  abbrev pub spread_exceeds : TradeCandidate A → Option (StrategyThresholds A) → Bool
  spread_exceeds c none = false
  spread_exceeds c (some t) = F.ltb t.max_spread_bps c.spread_bps

  abbrev pub max_slippage : Option (RiskConfig A) → A
  max_slippage config = setting (λ s. s.max_slippage_bps) config (F.decimal 30 1)

  abbrev pub near_funding : Option A → ℕ → ℕ → Bool
  near_funding none before after = false
  near_funding (some m) before after =
      F.leb (F.sub (Number.nil F) (F.decimal after 0)) m && F.leb m (F.decimal before 0)

  abbrev pub in_funding_window : Option (FundingContext A) → Option (RiskConfig A) → Bool
  in_funding_window none config = false
  in_funding_window (some f) config =
      f.is_funding_window
      || near_funding f.minutes_to_funding (setting (λ s. s.block_before_funding_minutes) config 10)
          (setting (λ s. s.block_after_funding_minutes) config 5)

  abbrev pub held_too_long : TradeCandidate A → Option (StrategyThresholds A) → Bool
  held_too_long c none = false
  held_too_long c (some t) = ltb t.max_holding_minutes c.expected_holding_minutes

  -- from the expected profit to the risk of the portfolio
  unfoldable pub outcome_tests :
      TradeCandidate A
      → UserContext A
      → AccountState A
      → Option MarketRegime
      → Option (FundingContext A)
      → Option (RiskConfig A)
      → List (Bool × Code)
  outcome_tests c ctx account market_regime funding config =
      let threshold = strategy_thresholds c.strategy_type in
      let regime = or_else market_regime MarketRegime.unknown in
      (too_small F c.expected_net_profit (min_profit c config), expected_profit)
      ∷ (
        exceeds c.expected_net_loss (F.mul account.total_balance ctx.risk_per_trade),
        expected_loss,
      )
      ∷ (not (is_some c.liquidation_price), no_liquidation_price)
      ∷ (
        not (liquidation_safe c.action c.stop_loss c.liquidation_price (liquidation_buffer config)),
        liquidation_distance,
      )
      ∷ (spread_exceeds c threshold, spread_limit)
      ∷ (F.ltb (max_slippage config) c.slippage_bps, slippage_limit)
      ∷ (in_funding_window funding config, funding_window)
      ∷ (
        is_volatile regime && setting (λ s. s.high_volatility_block) config true,
        regime_volatility,
      )
      ∷ (is_news regime && setting (λ s. s.news_event_block) config true, regime_news)
      ∷ (c.expected_holding_minutes == 0, holding_time)
      ∷ (held_too_long c threshold, holding_time)
      ∷ (setting (λ s. s.allow_martingale) config false, martingale_disabled)
      ∷ (setting (λ s. s.allow_averaging_down) config false, averaging_down_disabled)
      ∷ (not (is_isolated (setting (λ s. s.mode) config isolated)), margin_mode)
      ∷ (
        not (
            check_portfolio_risk F account (or_else c.expected_net_loss (Number.nil F))
              ctx.risk_profile),
        portfolio_risk,
      )
      ∷ []

  -- the position checks, between the losses and the outcome
  unfoldable pub position_tests : UserContext A → ℕ → Option OpenPosition → List (Bool × Code)
  position_tests ctx open_count same_coin =
      (not (check_position_count_limit open_count ctx) && not (is_some same_coin), order_002)
      ∷ (is_some same_coin, position_conflict)
      ∷ []
