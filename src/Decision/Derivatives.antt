-- ===== src/Decision/Derivatives.antt =====
-- agents/decision/derivatives_market.py: the inputs and what is read of them. The texts of the reasons are
-- left out.
use leverage_agnet.Common.{
  ◌||◌, if◌then◌else◌, Bool, List, Option, some, none, [], ◌∷◌, is_some, or_else, false,
}
use leverage_agnet.Common.Number
use leverage_agnet.Common.Number.{Number}
use leverage_agnet.Decision.Inputs.{CrowdedSide, pick, read_option}

pub record Liquidation (A : Type 0) : Type 0 where
  pub value_usdt : Option A
  pub notional : Option A
  pub amount : Option A

pub record DerivativesData (A : Type 0) : Type 0 where
  pub funding_rate : Option A
  pub open_interest : Option A
  pub open_interest_change : Option A
  pub open_interest_change_pct : Option A
  pub oi_change_pct : Option A
  pub oi_1h_change_pct : Option A
  pub long_short_ratio : Option A
  pub long_account_ratio : Option A
  pub long_account_pct : Option A
  pub short_account_ratio : Option A
  pub short_account_pct : Option A
  pub liquidation_usdt : Option A
  pub liquidation_volume : Option A
  pub liquidations_usdt : Option A
  pub liquidations : Option (List (Liquidation A))
  pub price_change : Option A
  pub price_change_pct : Option A
  pub volume_change : Option A
  pub volume_change_pct : Option A

pub record PriceData (A : Type 0) : Type 0 where
  pub price_change : Option A
  pub price_change_pct : Option A
  pub recent_price_change_pct : Option A
  pub volume_change : Option A
  pub volume_change_pct : Option A

pub record DerivativesConfig (A : Type 0) : Type 0 where
  pub high_funding_rate : Option A
  pub strong_negative_funding_rate : Option A
  pub neutral_funding_abs : Option A
  pub oi_up_pct : Option A
  pub oi_drop_pct : Option A
  pub price_move_pct : Option A
  pub price_spike_pct : Option A
  pub long_crowd_ratio : Option A
  pub short_crowd_ratio : Option A
  pub account_crowd_pct : Option A
  pub liquidation_risk_usdt : Option A
  pub max_score_adjustment : Option A

-- what the rules read: the figures, and the two tests of crowding
pub record DerivativesFigures (A : Type 0) : Type 0 where
  pub funding : A
  pub oi_change : A
  pub price_change : A
  pub volume_change : A
  pub liquidated : A
  pub long_crowded : Bool
  pub short_crowded : Bool

-- the local variables that the rules change
pub record Tally (A : Type 0) : Type 0 where
  pub long_adj : A
  pub short_adj : A
  pub risk : A
  pub side : CrowdedSide

-- `_first_float`
abbrev pub first_of : {A : Type 0} → List (Option A) → Option A
first_of [] = none
first_of (none ∷ rest) = first_of rest
first_of (some a ∷ _) = some a

-- `_has_any_derivatives_data`
unfoldable pub has_any_derivatives_data : {A : Type 0} → Option (DerivativesData A) → Bool
has_any_derivatives_data none = false
has_any_derivatives_data (some d) =
    is_some d.funding_rate
    || is_some d.open_interest
    || is_some d.open_interest_change
    || is_some d.open_interest_change_pct
    || is_some d.oi_change_pct
    || is_some d.long_short_ratio
    || is_some d.long_account_ratio
    || is_some d.short_account_ratio
    || is_some d.liquidation_volume
    || is_some d.liquidation_usdt
    || is_some d.liquidations

module _ {A : Type 0} (F : Number A) where
  abbrev sum_liquidations : List (Liquidation A) → A → A
  sum_liquidations [] total = total
  sum_liquidations (l ∷ ls) total =
      sum_liquidations ls (
        F.add total (or_else (first_of (l.value_usdt ∷ l.notional ∷ l.amount ∷ [])) (Number.nil F)))

  abbrev listed : Option (List (Liquidation A)) → A
  listed none = Number.nil F
  listed (some ls) = sum_liquidations ls (Number.nil F)

  -- `_extract_liquidation_notional`
  unfoldable pub extract_liquidation_notional : DerivativesData A → A
  extract_liquidation_notional d =
      or_else (first_of (d.liquidation_usdt ∷ d.liquidation_volume ∷ d.liquidations_usdt ∷ []))
        (listed d.liquidations)

  -- a share of at most 1 is no percentage yet
  abbrev account_pct : Option A → Option A
  account_pct none = none
  account_pct (some r) = some (if F.leb r (Number.one F) then F.mul r (F.decimal 100 0) else r)

  abbrev reaches : Option A → A → Bool
  reaches none limit = false
  reaches (some a) limit = F.leb limit a

  abbrev stays_below : Option A → A → Bool
  stays_below none limit = false
  stays_below (some a) limit = F.leb a limit

  unfoldable pub figures_of :
      DerivativesData A → Option (PriceData A) → Option (DerivativesConfig A) → DerivativesFigures A
  figures_of d p config =
      let crowd_pct = pick (λ c. c.account_crowd_pct) config (F.decimal 60 0) in
      record {
        funding = or_else d.funding_rate (Number.nil F);
        oi_change =
            or_else
              (first_of (
                d.open_interest_change ∷ d.open_interest_change_pct ∷ d.oi_change_pct
                ∷ d.oi_1h_change_pct ∷ []))
              (Number.nil F);
        price_change =
            or_else
              (first_of (
                read_option (λ p. p.price_change) p
                ∷ read_option (λ p. p.price_change_pct) p
                ∷ read_option (λ p. p.recent_price_change_pct) p
                ∷ d.price_change
                ∷ d.price_change_pct
                ∷ []))
              (Number.nil F);
        volume_change =
            or_else
              (first_of (
                read_option (λ p. p.volume_change) p
                ∷ read_option (λ p. p.volume_change_pct) p
                ∷ d.volume_change
                ∷ d.volume_change_pct
                ∷ []))
              (Number.nil F);
        liquidated = extract_liquidation_notional d;
        long_crowded =
            reaches d.long_short_ratio (pick (λ c. c.long_crowd_ratio) config (F.decimal 15 1))
            || reaches (account_pct (first_of (d.long_account_ratio ∷ d.long_account_pct ∷ [])))
                crowd_pct;
        short_crowded =
            stays_below d.long_short_ratio (pick (λ c. c.short_crowd_ratio) config (F.decimal 67 2))
            || reaches (account_pct (first_of (d.short_account_ratio ∷ d.short_account_pct ∷ [])))
                crowd_pct;
      }
