-- ===== src/Decision/Priorities.antt =====
-- When a regime is classified and a strategy selected.
use leverage_agnet.Common.{
  leb, arith, leb→le, if_cases, or_else, Bool, ℕ, Option, ◌≡◌, true, false, ◌≤◌, ◌<◌,
}
use leverage_agnet.Common.Number.{Number}
use leverage_agnet.Trading.{MarketRegime, trend_up, trend_down, range, high_volatility, news_event}
use leverage_agnet.Decision.Inputs.{
  MarketRegimeResult, read, StrategySignal, TechnicalResult, MarketSnapshot,
}
use leverage_agnet.Decision.Regime.{
  price_of, primary_of, volatility_tests, up_tests, range_tests, down_tests, count, min_signals_of,
  classify_market_regime, RegimeConfig,
}

not-leb : (a b : ℕ) → leb a b ≡ false → b < a
not-leb a b h = ground arith

module _ {A : Type 0} (F : Number A) (m : Option (MarketSnapshot A))
    (t : Option (TechnicalResult A)) (s : Option (StrategySignal A))
    (config : Option (RegimeConfig A)) where
  abbrev pub votes_volatility : ℕ
  votes_volatility = count (volatility_tests F (primary_of F t) (price_of F m) config)

  abbrev pub votes_up : ℕ
  votes_up = count (up_tests F t s config)

  abbrev pub votes_down : ℕ
  votes_down = count (down_tests F t s config)

  abbrev pub votes_range : ℕ
  votes_range = count (range_tests F t s config)

  abbrev pub has_news : Bool
  has_news = or_else (read (λ m. m.news_event) m) false

  -- what each regime says of the votes, with n the number of votes that it needs
  abbrev pub IsVoted : ℕ → MarketRegime → Type 0
  IsVoted n news_event = has_news ≡ true
  IsVoted n high_volatility = (has_news ≡ false) × (n ≤ votes_volatility)
  IsVoted n trend_up = (has_news ≡ false) × (votes_volatility < n) × (n ≤ votes_up)
  IsVoted n trend_down =
      (has_news ≡ false) × (votes_volatility < n) × (votes_up < n) × (n ≤ votes_down)
  IsVoted n range =
      (has_news ≡ false)
      × (votes_volatility < n)
      × (votes_up < n)
      × (votes_down < n)
      × (n ≤ votes_range)
  IsVoted n MarketRegime.unknown =
      (has_news ≡ false)
      × (votes_volatility < n)
      × (votes_up < n)
      × (votes_down < n)
      × (votes_range < n)

  -- The regime is the first that has enough votes, in the order of the news, the volatility, the
  -- trend up, the trend down and the range: any but the news needs as many tests as configured, and
  -- without enough votes for one the regime is unknown.
  pub classify_market_regime-IsVoted :
      IsVoted (min_signals_of F config) (classify_market_regime F m t s config).regime
  unfolding classify_market_regime
  classify_market_regime-IsVoted =
      let n = min_signals_of F config in
      let V : MarketRegime → Type 0 = IsVoted n in
      let P : MarketRegimeResult A → Type 0 = λ r. V r.regime in
      if_cases P _ _ _ (λ h. h)
        λ news.
          if_cases P _ _ _
            (λ h. let v : V high_volatility = (news, leb→le n votes_volatility h) in v)
            λ hv.
              if_cases P _ _ _
                (λ h.
                  let v : V trend_up = (news, not-leb n votes_volatility hv, leb→le n votes_up h) in
                  v)
                λ up.
                  if_cases P _ _ _
                    (λ h.
                      let v : V trend_down = (
                        news,
                        not-leb n votes_volatility hv,
                        not-leb n votes_up up,
                        leb→le n votes_down h,
                      ) in
                      v)
                    λ dn.
                      if_cases P _ _ _
                        (λ h.
                          let v : V range = (
                            news,
                            not-leb n votes_volatility hv,
                            not-leb n votes_up up,
                            not-leb n votes_down dn,
                            leb→le n votes_range h,
                          ) in
                          v)
                        (λ rg.
                          let v : V MarketRegime.unknown = (
                            news,
                            not-leb n votes_volatility hv,
                            not-leb n votes_up up,
                            not-leb n votes_down dn,
                            not-leb n votes_range rg,
                          ) in
                          v)
