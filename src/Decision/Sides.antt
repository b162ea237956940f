-- ===== src/Decision/Sides.antt =====
-- What the crowded side of a derivatives score says.
use leverage_agnet.Common.{ℕ, ◌≡◌, if◌then◌else◌, if_cases, arith, Bool, Option, true, false}
use leverage_agnet.Common.Number.{Number}
use leverage_agnet.Trading.{MarketRegime}
use leverage_agnet.Decision.Crowding.{
  is_liquidating, volume_moves, regime_points, adds_points, short_warned, long_warned,
  funding_is_negative, funding_is_high, favoured, long_chased, spiked, short_chased, add_risk,
  tally, price_spike, negative_funding, high_funding, neutral_rise, crowding,
}
use leverage_agnet.Decision.Derivatives.{DerivativesConfig, DerivativesFigures, Tally}
use leverage_agnet.Decision.Inputs.{CrowdedSide, crowded_long, crowded_short, nobody}

module _ {A : Type 0} (F : Number A) (config : Option (DerivativesConfig A))
    (f : DerivativesFigures A) where
  -- the side is really crowded, and without one neither is
  abbrev pub IsTrue : CrowdedSide → Type 0
  IsTrue crowded_long = f.long_crowded ≡ true
  IsTrue crowded_short = f.short_crowded ≡ true
  IsTrue nobody = (f.long_crowded ≡ false) × (f.short_crowded ≡ false)

  pub record IsSided (t : Tally A) : Type 0 where
    pub is_true : IsTrue t.side

  sided : (t : Tally A) → IsTrue t.side → IsSided t
  sided t h = record { is_true = h }

  crowding-IsSided : IsSided (crowding F config f)
  unfolding crowding
  crowding-IsSided = sided _ (
      if_cases IsTrue f.long_crowded crowded_long
        (if f.short_crowded then crowded_short else nobody) (λ h. h)
        (λ l. if_cases IsTrue f.short_crowded crowded_short nobody (λ h. h) (λ s. (l, s))))

  neutral_rise-IsSided : (t : Tally A) → IsSided t → IsSided (neutral_rise F config f t)
  unfolding neutral_rise
  neutral_rise-IsSided t h =
      if_cases IsSided _ (favoured F config f t) t (λ _. record { is_true = h.is_true }) (λ _. h)

  high_funding-IsSided : (t : Tally A) → IsSided t → IsSided (high_funding F config f t)
  unfolding high_funding
  high_funding-IsSided t h =
      if_cases IsSided _ (long_chased F config f t)
        (if funding_is_high F config f then long_warned F config f t else t)
        (λ g. record { is_true = ground (arith, g) })
        (λ _.
          if_cases IsSided _ (long_warned F config f t) t (λ _. record { is_true = h.is_true })
            (λ _. h))

  negative_funding-IsSided : (t : Tally A) → IsSided t → IsSided (negative_funding F config f t)
  unfolding negative_funding
  negative_funding-IsSided t h =
      if_cases IsSided _ (short_chased F config f t)
        (if funding_is_negative F config f then short_warned F config f t else t)
        (λ g. record { is_true = ground (arith, g) })
        (λ _.
          if_cases IsSided _ (short_warned F config f t) t (λ _. record { is_true = h.is_true })
            (λ _. h))

  price_spike-IsSided : (t : Tally A) → IsSided t → IsSided (price_spike F config f t)
  unfolding price_spike
  price_spike-IsSided t h =
      if_cases IsSided _ (spiked F config f t) t (λ _. record { is_true = h.is_true }) (λ _. h)

  add_risk-IsSided :
      (b : Bool) (points : ℕ) (t : Tally A) → IsSided t → IsSided (add_risk F config f b points t)
  add_risk-IsSided b points t h =
      if_cases IsSided b _ t (λ _. record { is_true = h.is_true }) (λ _. h)

  -- The tally names a side only if its positions are crowded, and none only if neither are.
  pub tally-IsSided : (regime : MarketRegime) → IsSided (tally F config f regime)
  unfolding tally
  tally-IsSided regime =
      add_risk-IsSided (adds_points F config f regime) (regime_points F config f regime) _ (
        add_risk-IsSided (volume_moves F config f) 6 _ (
          add_risk-IsSided (is_liquidating F config f) 20 _ (
            price_spike-IsSided _ (
              negative_funding-IsSided _
                (high_funding-IsSided _ (neutral_rise-IsSided _ crowding-IsSided))))))
