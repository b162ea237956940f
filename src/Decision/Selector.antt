-- ===== src/Decision/Selector.antt =====
-- agents/decision/strategy_selector.py: `select_strategy_type`. The texts of the reasons are left out.
use leverage_agnet.Risk.Checks.{strategy_thresholds, threshold_rr}
use leverage_agnet.Common.{
  or_else, not, ◌&&◌, ◌||◌, if◌then◌else◌, Bool, ℕ, Option, false, true, some, none,
}
use leverage_agnet.Common.Number
use leverage_agnet.Common.Number.{Number}
use leverage_agnet.Trading.{
  MarketRegime, trend_up, trend_down, range, high_volatility, news_event, StrategyType, scalping,
  intraday, trend_following, breakout,
}
use leverage_agnet.Decision.Final.{first_some}
use leverage_agnet.Decision.Inputs.{
  read_option, hundred, read, pick, min_of, clamp, DerivativesScore, SignalScore, NewsScore,
  MarketSnapshot, CrowdedSide, crowded_long, crowded_short, nobody, StrategySelectionResult,
}

pub record SelectorConfig (A : Type 0) : Type 0 where
  pub min_trend_dir_score : Option A
  pub max_risk_trend : Option A
  pub min_breakout_volume_ratio : Option A
  pub max_breakout_price_move : Option A
  pub max_risk_breakout : Option A
  pub min_intraday_dir_score : Option A
  pub max_risk_intraday : Option A
  pub min_scalping_dir_score : Option A
  pub max_risk_scalping : Option A

pub data DirectionLabel : Type 0 where
  long_label short_label neutral : DirectionLabel

-- `STRATEGY_HOLDING_MINUTES`
abbrev pub strategy_holding_minutes : StrategyType → ℕ
strategy_holding_minutes scalping = 5
strategy_holding_minutes intraday = 30
strategy_holding_minutes trend_following = 120
strategy_holding_minutes breakout = 60
strategy_holding_minutes StrategyType.unknown = 0

abbrev pub is_trend : MarketRegime → Bool
is_trend trend_up = true
is_trend trend_down = true
is_trend _ = false

abbrev pub is_range : MarketRegime → Bool
is_range range = true
is_range _ = false

abbrev pub is_blocked : MarketRegime → Bool
is_blocked high_volatility = true
is_blocked news_event = true
is_blocked _ = false

-- `crowded == direction and direction != "NEUTRAL"`
abbrev pub is_crowded : CrowdedSide → DirectionLabel → Bool
is_crowded crowded_long long_label = true
is_crowded crowded_short short_label = true
is_crowded _ _ = false

module _ {A : Type 0} (F : Number A) where
  -- `_make_result` and `_make_unknown`
  abbrev pub make_result : StrategyType → StrategySelectionResult A
  make_result strategy = record {
    strategy_type = strategy;
    expected_holding_minutes = strategy_holding_minutes strategy;
    min_required_rr = threshold_rr F (strategy_thresholds F strategy);
  }

  -- `_combined_risk`
  unfoldable pub combined_risk :
      Option (SignalScore A) → Option (NewsScore A) → Option (DerivativesScore A) → A
  combined_risk chart news derivatives = F.quantize 2 (
      clamp F
        (F.add
          (F.add (F.mul (or_else (read (λ c. c.risk_score) chart) (F.decimal 50 0)) (F.decimal 4 1))
            (F.mul (or_else (read (λ n. n.news_risk) news) (Number.nil F)) (F.decimal 3 1)))
          (F.mul (or_else (read (λ d. d.derivatives_risk) derivatives) (Number.nil F))
            (F.decimal 3 1)))
        (Number.nil F) (hundred F))

  -- `_max_dir_score`, `_direction_label`
  abbrev pub max_dir_score : SignalScore A → A
  max_dir_score c = Number.max F c.long_score c.short_score

  abbrev pub direction_label : SignalScore A → DirectionLabel
  direction_label c =
      if F.ltb c.short_score c.long_score
      then long_label
      else if F.ltb c.long_score c.short_score
      then short_label
      else neutral

  abbrev pub spread_of : Option (MarketSnapshot A) → A
  spread_of m =
      or_else (first_some (read_option (λ m. m.spread_bps) m) (read_option (λ m. m.spread) m))
        (Number.nil F)

  abbrev pub volume_ratio_of : Option (MarketSnapshot A) → A
  volume_ratio_of m =
      or_else
        (first_some (read_option (λ m. m.volume_ratio) m) (
          first_some (read_option (λ m. m.vol_ratio) m) (read_option (λ m. m.volume_multiplier) m)))
        (Number.one F)

  -- `_price_change_abs_pct`
  abbrev pub price_move_of : Option (MarketSnapshot A) → A
  price_move_of m = Number.abs F (
      or_else
        (first_some (read_option (λ m. m.price_change_pct) m) (
          first_some (read_option (λ m. m.recent_price_change_pct) m)
            (read_option (λ m. m.price_change_1h_pct) m)))
        (Number.nil F))

  abbrev pub no_trade_of : Option (NewsScore A) → Bool
  no_trade_of news = or_else (read (λ n. n.no_trade_flag) news) false

  abbrev pub crowded_of : Option (DerivativesScore A) → CrowdedSide
  crowded_of d = or_else (read (λ d. d.crowded_side) d) nobody

  -- SCALPING, or nothing
  unfoldable pub select_scalping : Option (SelectorConfig A) → A → A → A → StrategySelectionResult A
  select_scalping config spread dir risk =
      if F.ltb (F.decimal 30 1) spread
      then make_result StrategyType.unknown
      else if F.leb (pick (λ c. c.min_scalping_dir_score) config (F.decimal 20 0)) dir
          && F.leb risk (pick (λ c. c.max_risk_scalping) config (F.decimal 40 0))
      then make_result scalping
      else make_result StrategyType.unknown

  -- INTRADAY, or what comes after it
  unfoldable pub select_intraday :
      MarketRegime → Option (SelectorConfig A) → A → A → A → StrategySelectionResult A
  select_intraday regime config spread dir risk =
      if (is_trend regime || is_range regime)
        && not (F.ltb (F.decimal 50 1) spread)
        && F.leb (pick (λ c. c.min_intraday_dir_score) config (F.decimal 35 0)) dir
        && F.leb risk (pick (λ c. c.max_risk_intraday) config (F.decimal 60 0))
      then make_result intraday
      else select_scalping config spread dir risk

  -- BREAKOUT, or what comes after it; a crowded side ends the selection
  unfoldable pub select_breakout :
      MarketRegime
      → Bool
      → Option (MarketSnapshot A)
      → Option (SelectorConfig A)
      → A
      → A
      → StrategySelectionResult A
  select_breakout regime crowded m config dir risk =
      let later = select_intraday regime config (spread_of m) dir risk in
      if not (
        F.leb (pick (λ c. c.min_breakout_volume_ratio) config (F.decimal 18 1)) (volume_ratio_of m))
      then later
      else if F.leb (pick (λ c. c.max_breakout_price_move) config (F.decimal 30 1))
          (price_move_of m)
      then later
      else if crowded
      then make_result StrategyType.unknown
      else if F.leb risk (pick (λ c. c.max_risk_breakout) config (F.decimal 50 0))
      then make_result breakout
      else later

  -- the risk of following a trend that many follow
  abbrev pub effective_risk : Bool → A → A
  effective_risk crowded risk =
      if crowded then min_of F (hundred F) (F.add risk (F.decimal 10 0)) else risk

  -- TREND_FOLLOWING, or what comes after it
  unfoldable pub select_trend :
      MarketRegime
      → Bool
      → Option (MarketSnapshot A)
      → Option (SelectorConfig A)
      → A
      → A
      → StrategySelectionResult A
  select_trend regime crowded m config dir risk =
      if is_trend regime
        && F.leb (pick (λ c. c.min_trend_dir_score) config (F.decimal 55 0)) dir
        && F.leb (effective_risk crowded risk)
            (pick (λ c. c.max_risk_trend) config (F.decimal 55 0))
      then make_result trend_following
      else select_breakout regime crowded m config dir risk

  abbrev pub with_chart :
      MarketRegime
      → Option (DerivativesScore A)
      → Option (MarketSnapshot A)
      → Option (SelectorConfig A)
      → A
      → Option (SignalScore A)
      → StrategySelectionResult A
  with_chart regime derivatives m config risk none = make_result StrategyType.unknown
  with_chart regime derivatives m config risk (some chart) =
      select_trend regime (is_crowded (crowded_of derivatives) (direction_label chart)) m config
        (max_dir_score chart) risk

  unfoldable pub select_strategy_type :
      Option MarketRegime
      → Option (SignalScore A)
      → Option (NewsScore A)
      → Option (DerivativesScore A)
      → Option (MarketSnapshot A)
      → Option (SelectorConfig A)
      → StrategySelectionResult A
  select_strategy_type market_regime chart news derivatives m config =
      let regime = or_else market_regime MarketRegime.unknown in
      if is_blocked regime
      then make_result StrategyType.unknown
      else if no_trade_of news
      then make_result StrategyType.unknown
      else with_chart regime derivatives m config (combined_risk chart news derivatives) chart
