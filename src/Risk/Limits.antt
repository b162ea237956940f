-- ===== src/Risk/Limits.antt =====
-- What the sizing methods put at risk, and when a size is computed.
use leverage_agnet.Risk.Kelly.{risk_per_trade_max, risk_per_trade_min, TradeStatistics, clip}
use leverage_agnet.Risk.Methods.{
  valid_stop, calculate, build_sizing_result, with_stop, SizingResult, fixed_risk, fixed_dollar,
  percent_risk, kelly, fixed_dollar_risk, RiskAmount, kelly_risk, get_risk_amount, SizingMethod,
  SizingConfig,
}
use leverage_agnet.Risk.Sizing.{round_to_lot_size, equal}
use leverage_agnet.Risk.Types.{AccountState}
use leverage_agnet.Common.{
  ◌∙◌, ◌<◌, ap, String, ℕ, if◌then◌else◌, false, ◌==◌, ◌≡◌, ◌⊎◌, inl, inr, refl, if_cases, arith,
  Option, some, none, true,
}
use leverage_agnet.Common.Number
use leverage_agnet.Common.Number.{Number, IsOrdered}
use leverage_agnet.Trading.{RawSignal}

module _ {A : Type 0} (F : Number A) (ordered : IsOrdered F) where
  -- a share of a balance between two limits
  abbrev pub IsShare : A → A → A → A → Type 0
  IsShare low high balance risk =
      (p : A) × (risk ≡ F.mul balance p) × (F.leb low p ≡ true) × (F.leb p high ≡ true)

  pub clip-IsBetween :
      (low high value : A)
      → F.leb low high ≡ true
      → (F.leb low (clip F low high value) ≡ true) × (F.leb (clip F low high value) high ≡ true)
  clip-IsBetween low high value h = (
    ground (
      arith,
      h,
      ordered.leb_refl low,
      ordered.ltb_not value high,
      ordered.ltb_not low value,
      ordered.ltb_not low high,
      ordered.leb_total low value,
    ),
    ground (
      arith,
      h,
      ordered.leb_refl high,
      ordered.ltb_not value high,
      ordered.leb_total value high,
      ordered.ltb_not low high,
    ),
  )

  capped_le : (most asked : A) → F.leb (if F.ltb most asked then most else asked) most ≡ true
  capped_le most asked = ground (arith, ordered.leb_refl most, ordered.ltb_not most asked)

  -- what each method puts at risk
  abbrev pub IsLimited :
      SizingMethod → SizingConfig A → AccountState A → Option (TradeStatistics A) → A → Type 0
  IsLimited fixed_risk config account stats risk =
      IsShare config.min_risk_pct config.max_risk_pct account.total_balance risk
  IsLimited fixed_dollar config account stats risk =
      F.leb risk (F.mul account.total_balance config.max_risk_pct) ≡ true
  IsLimited percent_risk config account stats risk =
      IsShare config.min_risk_pct config.max_risk_pct account.available_balance risk
  IsLimited kelly config account none risk =
      risk ≡ F.mul account.total_balance config.kelly_fallback_risk_pct
  IsLimited kelly config account (some stats) risk =
      ((stats.total_trades ≡ 0)
        × (risk ≡ F.mul account.total_balance config.kelly_fallback_risk_pct))
      ⊎ ((0 < stats.total_trades)
          × IsShare (F.decimal 5 3) (F.decimal 50 3) account.total_balance risk)

  clip-IsShare :
      (low high value balance : A)
      → F.leb low high ≡ true
      → IsShare low high balance (F.mul balance (clip F low high value))
  clip-IsShare low high value balance h =
      let b = clip-IsBetween low high value h in (clip F low high value, refl, b.0, b.1)

  module _ (config : SizingConfig A) (account : AccountState A) (stats : Option (TradeStatistics A))
      (limits : F.leb config.min_risk_pct config.max_risk_pct ≡ true)
      (constants : F.leb (risk_per_trade_min F) (risk_per_trade_max F) ≡ true) where
    abbrev KellyLimited : TradeStatistics A → RiskAmount A → Type 0
    KellyLimited s r = IsLimited kelly config account (some s) r.risk

    kelly_risk-IsLimited :
        (s : Option (TradeStatistics A))
        → IsLimited kelly config account s (kelly_risk F config account s).risk
    unfolding kelly_risk
    kelly_risk-IsLimited none = refl
    kelly_risk-IsLimited (some s) =
        if_cases (KellyLimited s) (s.total_trades == 0) _ _ (λ e. inl (ground arith, refl))
          (λ e. inr (ground arith, clip-IsShare _ _ _ _ constants))

    -- The methods that take a share of a balance keep it within the configured limits, a fixed
    -- amount stays below the largest share of the balance, and Kelly's share lies between 0.5% and
    -- 5%, whatever the configured limits, or is the configured fallback where there are no trades.
    pub get_risk_amount-IsLimited :
        (m : SizingMethod)
        → IsLimited m config account stats (get_risk_amount F m config account stats).risk
    unfolding get_risk_amount fixed_dollar_risk
    get_risk_amount-IsLimited fixed_risk = clip-IsShare _ _ _ _ limits
    get_risk_amount-IsLimited fixed_dollar = capped_le _ _
    get_risk_amount-IsLimited percent_risk = clip-IsShare _ _ _ _ limits
    get_risk_amount-IsLimited kelly = kelly_risk-IsLimited stats

module _ {A : Type 0} (F : Number A) (ordered : IsOrdered F) (config : SizingConfig A)
    (signal : RawSignal A) (account : AccountState A) (leverage : ℕ) (symbol : String)
    (stats : Option (TradeStatistics A)) where
  -- a positive stop
  abbrev pub HasStop : A → Type 0
  HasStop stop = (signal.stop_loss ≡ some stop) × (F.leb stop (Number.nil F) ≡ false)

  -- nothing, for one of three reasons, or the size of a limited risk
  abbrev pub IsCalculated : Option (SizingResult A) → Type 0
  IsCalculated none =
      (valid_stop F signal.stop_loss ≡ none)
      ⊎ ((stop : A) × HasStop stop
          × (equal F (Number.abs F (F.sub signal.entry_price stop)) (Number.nil F) ≡ true))
      ⊎ (leverage ≡ 0)
  IsCalculated (some r) =
      (stop : A) × (risk : A) × HasStop stop
      × (0 < leverage)
      × (equal F (Number.abs F (F.sub signal.entry_price stop)) (Number.nil F) ≡ false)
      × IsLimited F ordered config.method config account stats risk
      × (r.quantity
          ≡ round_to_lot_size F (F.div risk (Number.abs F (F.sub signal.entry_price stop))) symbol)
      × (r.max_loss ≡ F.quantize 2 risk)
      × (r.final_leverage ≡ leverage)

  module _ (limits : F.leb config.min_risk_pct config.max_risk_pct ≡ true)
      (constants : F.leb (risk_per_trade_min F) (risk_per_trade_max F) ≡ true) where
    build-IsCalculated :
        (stop : A)
        → HasStop stop
        → IsCalculated (
            build_sizing_result F config.method
              (get_risk_amount F config.method config account stats)
              signal
              stop
              account
              leverage
              symbol)
    unfolding build_sizing_result
    build-IsCalculated stop h =
        if_cases IsCalculated _ none _ (λ e. inr (inl (stop, h, e)))
          λ d.
            if_cases IsCalculated (leverage == 0) none _ (λ e. inr (inr ground arith))
              (λ l. (
                stop,
                (get_risk_amount F config.method config account stats).risk,
                h,
                ground arith,
                d,
                get_risk_amount-IsLimited F ordered config account stats limits constants
                    config.method,
                refl,
                refl,
                refl,
              ))

    with_stop-IsCalculated :
        (o : Option A)
        → signal.stop_loss ≡ o
        → IsCalculated (with_stop F config signal account leverage symbol stats (valid_stop F o))
    with_stop-IsCalculated none h = inl (ap (valid_stop F) h)
    with_stop-IsCalculated (some stop) h =
        let P : Option A → Type 0 =
          λ o. IsCalculated (with_stop F config signal account leverage symbol stats o) in
        if_cases P (F.leb stop (Number.nil F)) none (some stop)
          (λ e. inl (ap (valid_stop F) h ∙ rw e refl)) (λ e. build-IsCalculated stop (h, e))

    -- A size is refused exactly without a positive stop, with a stop at the entry, or without a
    -- leverage. Otherwise its loss is the rounded risk of the configured method, and its quantity
    -- is the risk by the distance of the stop, in whole lots. The risk lies between the configured
    -- shares of the balance, or for a fixed amount at most at the largest; for Kelly it lies between
    -- 0.5% and 5% of the balance, whatever the configured shares, and without trades it is the
    -- configured fallback, which nothing limits.
    pub calculate-IsCalculated :
        IsCalculated (calculate F config signal account leverage symbol stats)
    unfolding calculate
    calculate-IsCalculated = with_stop-IsCalculated signal.stop_loss refl
