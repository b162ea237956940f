-- ===== src/Decision/Selections.antt =====
-- What a selected strategy has passed, and that its holding time passes the risk engine's check.
use leverage_agnet.Common.{
  or_else, ◌⊎◌, inr, inl, some, none, if◌then◌else◌, not, ◌||◌, arith, if_cases, Option, Bool, refl,
  ◌≡◌, true, false,
}
use leverage_agnet.Common.Number.{Number}
use leverage_agnet.Trading.{
  StrategyType, scalping, intraday, trend_following, breakout, MarketRegime,
}
use leverage_agnet.Decision.Inputs.{
  DerivativesScore, NewsScore, SignalScore, pick, StrategySelectionResult, MarketSnapshot,
}
use leverage_agnet.Decision.Selector.{
  max_dir_score, direction_label, crowded_of, combined_risk, with_chart, is_crowded, no_trade_of,
  select_strategy_type, is_blocked, price_move_of, volume_ratio_of, is_range, spread_of,
  effective_risk, make_result, select_scalping, select_breakout, select_trend, select_intraday,
  is_trend, SelectorConfig,
}

module _ {A : Type 0} (F : Number A) (regime : MarketRegime) (crowded : Bool)
    (m : Option (MarketSnapshot A)) (config : Option (SelectorConfig A)) (dir risk : A) where
  -- the tests that each strategy has passed
  abbrev pub Passed : StrategyType → Type 0
  Passed trend_following =
      (is_trend regime ≡ true)
      × (F.leb (pick (λ c. c.min_trend_dir_score) config (F.decimal 55 0)) dir ≡ true)
      × (F.leb (effective_risk F crowded risk)
            (pick (λ c. c.max_risk_trend) config (F.decimal 55 0))
          ≡ true)
  Passed breakout =
      (crowded ≡ false)
      × (F.leb (pick (λ c. c.min_breakout_volume_ratio) config (F.decimal 18 1))
            (volume_ratio_of F m)
          ≡ true)
      × (F.leb (pick (λ c. c.max_breakout_price_move) config (F.decimal 30 1)) (price_move_of F m)
          ≡ false)
      × (F.leb risk (pick (λ c. c.max_risk_breakout) config (F.decimal 50 0)) ≡ true)
  Passed intraday =
      ((is_trend regime || is_range regime) ≡ true)
      × (F.ltb (F.decimal 50 1) (spread_of F m) ≡ false)
      × (F.leb (pick (λ c. c.min_intraday_dir_score) config (F.decimal 35 0)) dir ≡ true)
      × (F.leb risk (pick (λ c. c.max_risk_intraday) config (F.decimal 60 0)) ≡ true)
  Passed scalping =
      (F.ltb (F.decimal 30 1) (spread_of F m) ≡ false)
      × (F.leb (pick (λ c. c.min_scalping_dir_score) config (F.decimal 20 0)) dir ≡ true)
      × (F.leb risk (pick (λ c. c.max_risk_scalping) config (F.decimal 40 0)) ≡ true)
  Passed StrategyType.unknown = Unit

  -- a result of `_make_result` or `_make_unknown` whose strategy has passed its tests
  pub record HasPassed (r : StrategySelectionResult A) : Type 0 where
    pub made : r ≡ make_result F r.strategy_type
    pub tests : Passed r.strategy_type

  passed : (st : StrategyType) → Passed st → HasPassed (make_result F st)
  passed st h = record { made = refl; tests = h }

  nothing : HasPassed (make_result F StrategyType.unknown)
  nothing = passed StrategyType.unknown tt

  scalping-HasPassed : HasPassed (select_scalping F config (spread_of F m) dir risk)
  unfolding select_scalping
  scalping-HasPassed =
      if_cases HasPassed (F.ltb (F.decimal 30 1) (spread_of F m)) _ _ (λ _. nothing)
        λ s.
          if_cases HasPassed _ (make_result F scalping) (make_result F StrategyType.unknown)
            (λ h. passed scalping (s, ground (arith, h), ground (arith, h))) (λ _. nothing)

  intraday-HasPassed : HasPassed (select_intraday F regime config (spread_of F m) dir risk)
  unfolding select_intraday
  intraday-HasPassed =
      if_cases HasPassed _ (make_result F intraday) _
        (λ h.
          passed intraday
            (ground (arith, h), ground (arith, h), ground (arith, h), ground (arith, h)))
        (λ _. scalping-HasPassed)

  breakout-HasPassed : HasPassed (select_breakout F regime crowded m config dir risk)
  unfolding select_breakout
  breakout-HasPassed =
      let quiet = not (
        F.leb (pick (λ c. c.min_breakout_volume_ratio) config (F.decimal 18 1))
          (volume_ratio_of F m)) in
      let moved =
        F.leb (pick (λ c. c.max_breakout_price_move) config (F.decimal 30 1)) (price_move_of F m) in
      let calm = F.leb risk (pick (λ c. c.max_risk_breakout) config (F.decimal 50 0)) in
      let later = select_intraday F regime config (spread_of F m) dir risk in
      let none_of = make_result F StrategyType.unknown in
      let late = if calm then make_result F breakout else later in
      if_cases HasPassed quiet later (if moved then later else if crowded then none_of else late)
        (λ _. intraday-HasPassed)
        λ q.
          if_cases HasPassed moved later (if crowded then none_of else late)
            (λ _. intraday-HasPassed)
            λ mv.
              if_cases HasPassed crowded none_of late (λ _. nothing)
                λ c.
                  if_cases HasPassed calm (make_result F breakout) later
                    (λ h. passed breakout (c, ground (arith, q), mv, h)) (λ _. intraday-HasPassed)

  trend-HasPassed : HasPassed (select_trend F regime crowded m config dir risk)
  unfolding select_trend
  trend-HasPassed =
      if_cases HasPassed _ (make_result F trend_following) _
        (λ h. passed trend_following (ground (arith, h), ground (arith, h), ground (arith, h)))
        (λ _. breakout-HasPassed)

module _ {A : Type 0} (F : Number A) (regime : Option MarketRegime) (chart : Option (SignalScore A))
    (news : Option (NewsScore A)) (derivatives : Option (DerivativesScore A))
    (m : Option (MarketSnapshot A)) (config : Option (SelectorConfig A)) where
  -- a selection: nothing, or a strategy that has passed its tests in a regime that is not blocked
  pub record IsOpen (r : StrategySelectionResult A) : Type 0 where
    pub is_free : is_blocked (or_else regime MarketRegime.unknown) ≡ false
    pub is_quiet : no_trade_of F news ≡ false
    pub score : SignalScore A
    pub has_chart : chart ≡ some score
    pub has_passed :
        HasPassed F
          (or_else regime MarketRegime.unknown)
          (is_crowded (crowded_of F derivatives) (direction_label F score))
          m
          config
          (max_dir_score F score)
          (combined_risk F chart news derivatives)
          r

  abbrev pub IsSelected : StrategySelectionResult A → Type 0
  IsSelected r = (r ≡ make_result F StrategyType.unknown) ⊎ IsOpen r

  with_chart-IsSelected :
      is_blocked (or_else regime MarketRegime.unknown) ≡ false
      → no_trade_of F news ≡ false
      → (c : Option (SignalScore A)) → chart ≡ c
      → IsSelected (
          with_chart F
            (or_else regime MarketRegime.unknown)
            derivatives
            m
            config
            (combined_risk F chart news derivatives)
            c)
  with_chart-IsSelected b q none h = inl refl
  with_chart-IsSelected b q (some c) h = inr (record {
    is_free = b;
    is_quiet = q;
    score = c;
    has_chart = h;
    has_passed =
        trend-HasPassed F (or_else regime MarketRegime.unknown)
          (is_crowded (crowded_of F derivatives) (direction_label F c)) m config (max_dir_score F c)
          (combined_risk F chart news derivatives);
  })

  -- The selector answers UNKNOWN, or a strategy in a regime that is not blocked, without news that
  -- forbid trading and with a chart score. Its holding time and reward are those of the tables, and
  -- it has passed the tests of its strategy: on the risk, for all but breakout on the stronger score
  -- of a direction, for the trend on the regime, for breakout on the volume, the price move and the
  -- crowding, and for the short ones on the spread.
  pub select_strategy_type-IsSelected :
      IsSelected (select_strategy_type F regime chart news derivatives m config)
  unfolding select_strategy_type
  select_strategy_type-IsSelected =
      if_cases IsSelected (is_blocked (or_else regime MarketRegime.unknown)) _ _ (λ _. inl refl)
        λ b.
          if_cases IsSelected (no_trade_of F news) _ _ (λ _. inl refl)
            λ q. with_chart-IsSelected b q chart refl
