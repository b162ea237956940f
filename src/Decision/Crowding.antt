-- ===== src/Decision/Crowding.antt =====
-- agents/decision/derivatives_market.py: the rules that add up the score, in their order.
use leverage_agnet.Common.{
  ◌&&◌, ◌||◌, if◌then◌else◌, Bool, ℕ, Option, some, none, or_else, true, false,
}
use leverage_agnet.Common.Number
use leverage_agnet.Common.Number.{Number}
use leverage_agnet.Trading.{MarketRegime, high_volatility, news_event}
use leverage_agnet.Decision.Derivatives.{
  figures_of, has_any_derivatives_data, DerivativesFigures, PriceData, Tally, DerivativesData,
  DerivativesConfig,
}
use leverage_agnet.Decision.Inputs.{
  crowded_long, crowded_short, nobody, DerivativesScore, pick, clamp,
}

module _ {A : Type 0} (F : Number A) (config : Option (DerivativesConfig A))
    (f : DerivativesFigures A) where
  abbrev price_move : A
  price_move = pick (λ c. c.price_move_pct) config (F.decimal 25 2)

  abbrev oi_rises : Bool
  oi_rises = F.ltb (pick (λ c. c.oi_up_pct) config (F.decimal 5 1)) f.oi_change

  abbrev pub funding_is_high : Bool
  funding_is_high = F.leb (pick (λ c. c.high_funding_rate) config (F.decimal 10 4)) f.funding

  abbrev pub funding_is_negative : Bool
  funding_is_negative =
      F.leb f.funding
        (pick (λ c. c.strong_negative_funding_rate) config (F.sub (Number.nil F) (F.decimal 10 4)))

  -- the tally before the funding rules
  unfoldable pub crowding : Tally A
  crowding =
      let side =
        if f.long_crowded
        then crowded_long
        else if f.short_crowded
        then crowded_short
        else nobody in
      let risk =
        if f.long_crowded || f.short_crowded
        then F.add (Number.nil F) (F.decimal 18 0)
        else Number.nil F in
      record { long_adj = Number.nil F; short_adj = Number.nil F; risk = risk; side = side }

  abbrev pub favoured : Tally A → Tally A
  favoured t = record {
    long_adj = F.add t.long_adj (F.decimal 8 0);
    short_adj = t.short_adj;
    risk = F.add t.risk (F.decimal 5 0);
    side = t.side;
  }

  -- new long positions at a neutral funding rate
  unfoldable pub neutral_rise : Tally A → Tally A
  neutral_rise t =
      if F.ltb price_move f.price_change
        && oi_rises
        && F.leb (Number.abs F f.funding) (pick (λ c. c.neutral_funding_abs) config (F.decimal 3 4))
      then favoured t
      else t

  abbrev pub long_chased : Tally A → Tally A
  long_chased t = record {
    long_adj = F.sub t.long_adj (F.decimal 14 0);
    short_adj = F.add t.short_adj (F.decimal 4 0);
    risk = F.add t.risk (F.decimal 28 0);
    side = crowded_long;
  }

  abbrev pub long_warned : Tally A → Tally A
  long_warned t = record {
    long_adj = F.sub t.long_adj (F.decimal 6 0);
    short_adj = t.short_adj;
    risk = F.add t.risk (F.decimal 15 0);
    side = t.side;
  }

  unfoldable pub high_funding : Tally A → Tally A
  high_funding t =
      if F.ltb price_move f.price_change && oi_rises && funding_is_high && f.long_crowded
      then long_chased t
      else if funding_is_high
      then long_warned t
      else t

  abbrev pub short_chased : Tally A → Tally A
  short_chased t = record {
    long_adj = F.add t.long_adj (F.decimal 4 0);
    short_adj = F.sub t.short_adj (F.decimal 14 0);
    risk = F.add t.risk (F.decimal 28 0);
    side = crowded_short;
  }

  abbrev pub short_warned : Tally A → Tally A
  short_warned t = record {
    long_adj = t.long_adj;
    short_adj = F.sub t.short_adj (F.decimal 6 0);
    risk = F.add t.risk (F.decimal 15 0);
    side = t.side;
  }

  unfoldable pub negative_funding : Tally A → Tally A
  negative_funding t =
      if F.ltb f.price_change (F.sub (Number.nil F) price_move)
        && oi_rises
        && funding_is_negative
        && f.short_crowded
      then short_chased t
      else if funding_is_negative
      then short_warned t
      else t

  abbrev pub spiked : Tally A → Tally A
  spiked t =
      let up = F.ltb (Number.nil F) f.price_change in
      record {
        long_adj = if up then t.long_adj else F.sub t.long_adj (F.decimal 4 0);
        short_adj = if up then F.sub t.short_adj (F.decimal 4 0) else t.short_adj;
        risk = F.add t.risk (F.decimal 25 0);
        side = t.side;
      }

  -- a jump of the price while positions are closed
  unfoldable pub price_spike : Tally A → Tally A
  price_spike t =
      if F.leb (pick (λ c. c.price_spike_pct) config (F.decimal 20 1)) (Number.abs F f.price_change)
        && F.leb f.oi_change
            (pick (λ c. c.oi_drop_pct) config (F.sub (Number.nil F) (F.decimal 20 1)))
      then spiked t
      else t

  abbrev pub add_risk : Bool → ℕ → Tally A → Tally A
  add_risk b points t =
      if b
      then record {
        long_adj = t.long_adj;
        short_adj = t.short_adj;
        risk = F.add t.risk (F.decimal points 0);
        side = t.side;
      }
      else t

  abbrev pub regime_points : MarketRegime → ℕ
  regime_points high_volatility = 20
  regime_points news_event = 25
  regime_points MarketRegime.unknown = 5
  regime_points _ = 0

  abbrev pub adds_points : MarketRegime → Bool
  adds_points high_volatility = true
  adds_points news_event = true
  adds_points MarketRegime.unknown = true
  adds_points _ = false

  abbrev pub volume_moves : Bool
  volume_moves =
      F.leb (F.decimal 50 0) (Number.abs F f.volume_change)
      && F.leb price_move (Number.abs F f.price_change)

  abbrev pub is_liquidating : Bool
  is_liquidating =
      F.leb (pick (λ c. c.liquidation_risk_usdt) config (F.decimal 1000000 0)) f.liquidated

  unfoldable pub tally : MarketRegime → Tally A
  tally regime = add_risk (adds_points regime) (regime_points regime) (
      add_risk volume_moves 6 (
        add_risk is_liquidating 20
          (price_spike (negative_funding (high_funding (neutral_rise crowding))))))

module _ {A : Type 0} (F : Number A) where
  -- `DerivativesMarketScore.neutral()`
  abbrev pub neutral_derivatives : DerivativesScore A
  neutral_derivatives = record {
    long_score_adjustment = Number.nil F;
    short_score_adjustment = Number.nil F;
    derivatives_risk = Number.nil F;
    crowded_side = nobody;
  }

  abbrev pub scored : Option (DerivativesConfig A) → Tally A → DerivativesScore A
  scored config t =
      let most = pick (λ c. c.max_score_adjustment) config (F.decimal 30 0) in
      record {
        long_score_adjustment = F.quantize 2 (clamp F t.long_adj (F.sub (Number.nil F) most) most);
        short_score_adjustment =
            F.quantize 2 (clamp F t.short_adj (F.sub (Number.nil F) most) most);
        derivatives_risk = F.quantize 2 (clamp F t.risk (Number.nil F) (F.decimal 100 0));
        crowded_side = t.side;
      }

  abbrev pub score_data :
      Option (DerivativesData A)
      → Option (PriceData A)
      → MarketRegime
      → Option (DerivativesConfig A)
      → DerivativesScore A
  score_data none p regime config = neutral_derivatives
  score_data (some d) p regime config =
      scored config (tally F config (figures_of F d p config) regime)

  unfoldable pub score_derivatives_market :
      Option (DerivativesData A)
      → Option (PriceData A)
      → Option MarketRegime
      → Option (DerivativesConfig A)
      → DerivativesScore A
  score_derivatives_market d p regime config =
      if has_any_derivatives_data d
      then score_data d p (or_else regime MarketRegime.unknown) config
      else neutral_derivatives
