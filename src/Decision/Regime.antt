-- ===== src/Decision/Regime.antt =====
-- agents/decision/regime.py: `classify_market_regime`. The texts of the reasons are left out: each
-- list of reasons is the list of the tests that add to it.
use leverage_agnet.Common.{
  leb, not, ◌+◌, or_else, if◌then◌else◌, ◌&&◌, is_some, ℕ, ◌∷◌, Option, Bool, List, false, true,
  some, none, [],
}
use leverage_agnet.Common.Number
use leverage_agnet.Common.Number.{Number}
use leverage_agnet.Trading.{MarketRegime, trend_up, trend_down, range, high_volatility, news_event}
use leverage_agnet.Decision.Final.{first_some}
use leverage_agnet.Decision.Inputs.{
  hundred, read_option, read, min_of, MarketRegimeResult, StrategySignal, pick, MarketSnapshot,
  TechnicalResult, TimeframeAnalysis, Alignment, bullish, bearish, mixed, Interval, hour_1, hour_4,
  minute_15, minute_5, day_1, other_interval, long_signal, short_signal, no_trade, SignalDirection,
}

pub record RegimeConfig (A : Type 0) : Type 0 where
  pub bb_high_vol_bw : Option A
  pub atr_high_vol_pct : Option A
  pub volume_spike_ratio : Option A
  pub bb_range_bw : Option A
  pub tech_trend_th : Option A
  pub tech_range_th : Option A
  pub min_signals : Option ℕ

abbrev pub same_interval : Interval → Interval → Bool
same_interval hour_1 hour_1 = true
same_interval hour_4 hour_4 = true
same_interval minute_15 minute_15 = true
same_interval minute_5 minute_5 = true
same_interval day_1 day_1 = true
same_interval other_interval other_interval = true
same_interval _ _ = false

abbrev pub get_analysis : {V : Type 0} → Interval → List (Interval × V) → Option V
get_analysis tf [] = none
get_analysis tf ((i, v) ∷ rest) = if same_interval tf i then some v else get_analysis tf rest

abbrev pub is_skipped : Option Interval → Interval → Bool
is_skipped none tf = false
is_skipped (some s) tf = same_interval s tf

-- the first interval of an order that has an analysis and is not the one to skip
abbrev pub first_present :
    {V : Type 0} → List Interval → Option Interval → List (Interval × V) → Option Interval
first_present [] skip analyses = none
first_present (tf ∷ order) skip analyses =
    if is_some (get_analysis tf analyses) && not (is_skipped skip tf)
    then some tf
    else first_present order skip analyses

abbrev pub first_key : {V : Type 0} → List (Interval × V) → Option Interval
first_key [] = none
first_key ((i, _) ∷ _) = some i

abbrev pub primary_order : List Interval
primary_order = hour_1 ∷ hour_4 ∷ minute_15 ∷ minute_5 ∷ day_1 ∷ []

abbrev pub confirm_order : List Interval
confirm_order = hour_4 ∷ day_1 ∷ hour_1 ∷ minute_15 ∷ minute_5 ∷ []

-- `_select_timeframes`
unfoldable pub primary_interval : {V : Type 0} → List (Interval × V) → Option Interval
primary_interval analyses =
    first_some (first_present primary_order none analyses) (first_key analyses)

unfoldable pub confirm_interval : {V : Type 0} → List (Interval × V) → Option Interval
confirm_interval analyses = first_present confirm_order (primary_interval analyses) analyses

-- how many of the tests hold: the length of the list of reasons
unfoldable pub count : List Bool → ℕ
count [] = 0
count (b ∷ bs) = (if b then 1 else 0) + count bs

abbrev pub is_alignment : Alignment → Alignment → Bool
is_alignment bullish bullish = true
is_alignment bearish bearish = true
is_alignment mixed mixed = true
is_alignment _ _ = false

abbrev pub is_direction : SignalDirection → SignalDirection → Bool
is_direction long_signal long_signal = true
is_direction short_signal short_signal = true
is_direction no_trade no_trade = true
is_direction _ _ = false

module _ {A : Type 0} (F : Number A) where
  abbrev pub analyses_of : Option (TechnicalResult A) → List (Interval × TimeframeAnalysis A)
  analyses_of none = []
  analyses_of (some t) = t.analyses

  -- `_get_tf`
  abbrev pub get_tf : Option (TechnicalResult A) → Option Interval → Option (TimeframeAnalysis A)
  get_tf t none = none
  get_tf t (some tf) = get_analysis tf (analyses_of t)

  abbrev pub primary_of : Option (TechnicalResult A) → Option (TimeframeAnalysis A)
  primary_of t = get_tf t (primary_interval (analyses_of t))

  abbrev pub confirm_of : Option (TechnicalResult A) → Option (TimeframeAnalysis A)
  confirm_of t = get_tf t (confirm_interval (analyses_of t))

  abbrev pub aligned : Option (TimeframeAnalysis A) → Alignment → Bool
  aligned none a = false
  aligned (some p) a = is_alignment p.alignment a

  abbrev pub tech_score_of : Option (TechnicalResult A) → A
  tech_score_of t = or_else (read (λ t. t.tech_score) t) (Number.nil F)

  abbrev pub direction_of : Option (StrategySignal A) → SignalDirection
  direction_of s = or_else (read (λ s. s.direction) s) no_trade

  abbrev pub price_of : Option (MarketSnapshot A) → A
  price_of m = or_else (read_option (λ m. m.current_price) m) (Number.nil F)

  abbrev pub trend_threshold : Option (RegimeConfig A) → A
  trend_threshold config = pick (λ c. c.tech_trend_th) config (F.decimal 30 2)

  -- the reasons for HIGH_VOLATILITY
  unfoldable pub volatility_tests :
      Option (TimeframeAnalysis A) → A → Option (RegimeConfig A) → List Bool
  volatility_tests none price config = []
  volatility_tests (some p) price config =
      F.ltb (pick (λ c. c.bb_high_vol_bw) config (F.decimal 10 0)) p.bandwidth
      ∷ (F.ltb (Number.nil F) price
          && F.ltb (pick (λ c. c.atr_high_vol_pct) config (F.decimal 3 0))
              (F.mul (F.div p.atr price) (hundred F)))
      ∷ F.ltb (pick (λ c. c.volume_spike_ratio) config (F.decimal 2 0)) p.volume_ratio
      ∷ []

  -- the reasons for TREND_UP
  unfoldable pub up_tests :
      Option (TechnicalResult A) → Option (StrategySignal A) → Option (RegimeConfig A) → List Bool
  up_tests t s config =
      aligned (primary_of t) bullish
      ∷ aligned (confirm_of t) bullish
      ∷ F.ltb (trend_threshold config) (tech_score_of t)
      ∷ is_direction (direction_of s) long_signal
      ∷ []

  -- the reasons for TREND_DOWN
  unfoldable pub down_tests :
      Option (TechnicalResult A) → Option (StrategySignal A) → Option (RegimeConfig A) → List Bool
  down_tests t s config =
      aligned (primary_of t) bearish
      ∷ aligned (confirm_of t) bearish
      ∷ F.ltb (tech_score_of t) (F.sub (Number.nil F) (trend_threshold config))
      ∷ is_direction (direction_of s) short_signal
      ∷ []

  abbrev pub is_narrow : Option (TimeframeAnalysis A) → Option (RegimeConfig A) → Bool
  is_narrow none config = false
  is_narrow (some p) config = F.ltb p.bandwidth (pick (λ c. c.bb_range_bw) config (F.decimal 5 0))

  -- the reasons for RANGE: a default value is no reason
  unfoldable pub range_tests :
      Option (TechnicalResult A) → Option (StrategySignal A) → Option (RegimeConfig A) → List Bool
  range_tests t s config =
      aligned (primary_of t) mixed
      ∷ is_narrow (primary_of t) config
      ∷ (is_some t
          && F.ltb (Number.abs F (tech_score_of t))
              (pick (λ c. c.tech_range_th) config (F.decimal 20 2)))
      ∷ (is_some s && is_direction (direction_of s) no_trade)
      ∷ []

  abbrev pub min_signals_of : Option (RegimeConfig A) → ℕ
  min_signals_of config = pick (λ c. c.min_signals) config 2

  -- `round(min(1.0, n / of), 3)`
  abbrev pub share : ℕ → ℕ → A
  share n of = F.quantize 3 (min_of F (Number.one F) (F.div (F.decimal n 0) (F.decimal of 0)))

  unfoldable pub classify_market_regime :
      Option (MarketSnapshot A)
      → Option (TechnicalResult A)
      → Option (StrategySignal A)
      → Option (RegimeConfig A)
      → MarketRegimeResult A
  classify_market_regime m t s config =
      let n = min_signals_of config in
      let hv = count (volatility_tests (primary_of t) (price_of m) config) in
      let up = count (up_tests t s config) in
      let dn = count (down_tests t s config) in
      let rng = count (range_tests t s config) in
      if or_else (read (λ m. m.news_event) m) false
      then record { regime = news_event; confidence = Number.one F }
      else if leb n hv
      then record { regime = high_volatility; confidence = share hv 3 }
      else if leb n up
      then record { regime = trend_up; confidence = share up 4 }
      else if leb n dn
      then record { regime = trend_down; confidence = share dn 4 }
      else if leb n rng
      then record { regime = range; confidence = share rng 4 }
      else record { regime = MarketRegime.unknown; confidence = Number.nil F }
