-- ===== src/Risk/Methods.antt =====
-- agents/risk/sizing_engine.py, with the data of agents/risk/sizing_models.py. A result that the
-- code refuses to compute, by raising, is `none`.
use leverage_agnet.Risk.Kelly.{
  capped_risk_pct, recommended_kelly_fraction, risk_per_trade_min, calculate_kelly, KellyResult,
  clip, TradeStatistics,
}
use leverage_agnet.Risk.Sizing.{validate_position_size, validate_rr_ratio, round_to_lot_size, equal}
use leverage_agnet.Risk.Types.{margin_buffer_ratio, pro, plan_max_leverage, AccountState}
use leverage_agnet.Common.{
  not, map, ◌&&◌, String, ◌==◌, ltb, if◌then◌else◌, Bool, ℕ, List, ◌∷◌, ◌++◌, [], Option, some,
  none, false, true, or_else,
}
use leverage_agnet.Common.Number
use leverage_agnet.Common.Number.{Number}
use leverage_agnet.Trading.{RawSignal}

pub data SizingMethod : Type 0 where
  fixed_risk fixed_dollar percent_risk kelly : SizingMethod

pub data SizingWarning : Type 0 where
  risk_usdt_missing risk_usdt_capped no_history kelly_invalid kelly_capped : SizingWarning
  leverage_over_plan balance_short : SizingWarning

pub record SizingConfig (A : Type 0) : Type 0 where
  pub method : SizingMethod
  pub risk_pct : Option A
  pub risk_usdt : Option A
  pub kelly_fraction : A
  pub kelly_min_trades : ℕ
  pub kelly_fallback_risk_pct : A
  pub max_risk_pct : A
  pub min_risk_pct : A

-- the answer of `get_risk_amount`
pub record RiskAmount (A : Type 0) : Type 0 where
  pub risk : A
  pub kelly_result : Option (KellyResult A)
  pub warnings : List SizingWarning

pub record SizingResult (A : Type 0) : Type 0 where
  pub method : SizingMethod
  pub risk_amount_usdt : A
  pub risk_pct : A
  pub quantity : A
  pub margin_used : A
  pub position_value : A
  pub max_loss : A
  pub max_profit : A
  pub final_leverage : ℕ
  pub rr_ratio : A
  pub kelly_result : Option (KellyResult A)
  pub warnings : List SizingWarning

-- `warnings.append` under a test
abbrev warn_if : Bool → SizingWarning → List SizingWarning
warn_if b w = if b then w ∷ [] else []

module _ {A : Type 0} (F : Number A) where
  -- the defaults of the other fields
  abbrev pub sizing_with : SizingMethod → Option A → Option A → A → SizingConfig A
  sizing_with m pct usdt fraction = record {
    method = m;
    risk_pct = pct;
    risk_usdt = usdt;
    kelly_fraction = fraction;
    kelly_min_trades = 20;
    kelly_fallback_risk_pct = F.decimal 1 2;
    max_risk_pct = F.decimal 5 2;
    min_risk_pct = F.decimal 5 3;
  }

  -- `_clamp_risk_pct`, of the configured share or the smallest
  abbrev pub clamped_pct : SizingConfig A → A
  clamped_pct config =
      clip F config.min_risk_pct config.max_risk_pct
        (or_else config.risk_pct (risk_per_trade_min F))

  abbrev plain : A → RiskAmount A
  plain risk = record { risk = risk; kelly_result = none; warnings = [] }

  abbrev is_missing : Option A → Bool
  is_missing none = true
  is_missing (some a) = F.leb a (Number.nil F)

  unfoldable pub fixed_dollar_risk : SizingConfig A → AccountState A → RiskAmount A
  fixed_dollar_risk config account =
      let asked =
        if is_missing config.risk_usdt
        then F.mul account.total_balance (F.decimal 1 2)
        else or_else config.risk_usdt (Number.nil F) in
      let most = F.mul account.total_balance config.max_risk_pct in
      record {
        risk = if F.ltb most asked then most else asked;
        kelly_result = none;
        warnings =
            warn_if (is_missing config.risk_usdt) risk_usdt_missing
            ++ warn_if (F.ltb most asked) risk_usdt_capped;
      }

  -- the branch of `_KellySizer` without trades
  abbrev no_trades : SizingConfig A → AccountState A → RiskAmount A
  no_trades config account = record {
    risk = F.mul account.total_balance config.kelly_fallback_risk_pct;
    kelly_result = some (record {
      full_kelly_fraction = config.kelly_fallback_risk_pct;
      applied_fraction = config.kelly_fallback_risk_pct;
      kelly_multiplier = config.kelly_fraction;
      win_rate = Number.nil F;
      avg_odds = Number.nil F;
      sample_size = 0;
      is_valid = false;
    });
    warnings = no_history ∷ [];
  }

  abbrev effective_fraction : SizingConfig A → TradeStatistics A → A
  effective_fraction config stats =
      Number.max F (recommended_kelly_fraction F stats.total_trades) config.kelly_fraction

  unfoldable pub kelly_risk :
      SizingConfig A → AccountState A → Option (TradeStatistics A) → RiskAmount A
  kelly_risk config account none = no_trades config account
  kelly_risk config account (some stats) =
      let k =
        calculate_kelly F stats (effective_fraction config stats) config.kelly_min_trades
          config.kelly_fallback_risk_pct in
      if stats.total_trades == 0 then no_trades config account else record {
        risk = F.mul account.total_balance (capped_risk_pct F k);
        kelly_result = some k;
        warnings =
            warn_if (not k.is_valid) kelly_invalid
            ++ warn_if (F.ltb config.max_risk_pct k.full_kelly_fraction) kelly_capped;
      }

  unfoldable pub get_risk_amount :
      SizingMethod → SizingConfig A → AccountState A → Option (TradeStatistics A) → RiskAmount A
  get_risk_amount fixed_risk config account stats =
      plain (F.mul account.total_balance (clamped_pct config))
  get_risk_amount fixed_dollar config account stats = fixed_dollar_risk config account
  get_risk_amount percent_risk config account stats =
      plain (F.mul account.available_balance (clamped_pct config))
  get_risk_amount kelly config account stats = kelly_risk config account stats

  abbrev profit_of : RawSignal A → A → A → Bool × A → A
  profit_of signal stop quantity (ok, rr) =
      if ok && F.ltb (Number.nil F) rr
      then F.mul quantity
          (Number.abs F (F.sub (or_else signal.take_profit stop) signal.entry_price))
      else Number.nil F

  -- `_build_sizing_result`: without a target, `validate_rr_ratio` answers like no call of it
  unfoldable pub build_sizing_result :
      SizingMethod
      → RiskAmount A
      → RawSignal A
      → A
      → AccountState A
      → ℕ
      → String
      → Option (SizingResult A)
  build_sizing_result method amount signal stop account leverage symbol =
      let sl_distance = Number.abs F (F.sub signal.entry_price stop) in
      let quantity = round_to_lot_size F (F.div amount.risk sl_distance) symbol in
      let value = F.mul quantity signal.entry_price in
      let margin = F.div value (F.decimal leverage 0) in
      let rr = validate_rr_ratio F signal.entry_price signal.take_profit stop signal.direction in
      if equal F sl_distance (Number.nil F)
      then none
      else if leverage == 0
      then none
      else some (record {
        method = method;
        risk_amount_usdt = F.quantize 2 amount.risk;
        risk_pct =
            if F.ltb (Number.nil F) account.total_balance
            then F.div amount.risk account.total_balance
            else Number.nil F;
        quantity = quantity;
        margin_used = F.quantize 2 margin;
        position_value = F.quantize 2 value;
        max_loss = F.quantize 2 amount.risk;
        max_profit = F.quantize 2 (profit_of signal stop quantity rr);
        final_leverage = leverage;
        rr_ratio = if equal F rr.1 (Number.nil F) then Number.nil F else F.quantize 2 rr.1;
        kelly_result = amount.kelly_result;
        warnings =
            amount.warnings
            ++ warn_if (ltb (plan_max_leverage pro) leverage) leverage_over_plan
            ++ warn_if (F.ltb account.available_balance (F.mul margin (margin_buffer_ratio F)))
                balance_short;
      })

  -- `signal.stop_loss`, if it is there and positive
  abbrev pub valid_stop : Option A → Option A
  valid_stop none = none
  valid_stop (some stop) = if F.leb stop (Number.nil F) then none else some stop

  abbrev pub with_stop :
      SizingConfig A
      → RawSignal A
      → AccountState A
      → ℕ
      → String
      → Option (TradeStatistics A)
      → Option A
      → Option (SizingResult A)
  with_stop config signal account leverage symbol stats none = none
  with_stop config signal account leverage symbol stats (some stop) =
      build_sizing_result config.method (get_risk_amount config.method config account stats) signal
        stop account leverage symbol

  unfoldable pub calculate :
      SizingConfig A
      → RawSignal A
      → AccountState A
      → ℕ
      → String
      → Option (TradeStatistics A)
      → Option (SizingResult A)
  calculate config signal account leverage symbol stats =
      with_stop config signal account leverage symbol stats (valid_stop signal.stop_loss)

  -- `base or default`
  abbrev truthy : Option A → A → A
  truthy none d = d
  truthy (some a) d = if equal F a (Number.nil F) then d else a

  abbrev pub compared_configs : AccountState A → A → Option A → A → List (SizingConfig A)
  compared_configs account pct usdt fraction =
      sizing_with fixed_risk (some pct) none (F.decimal 25 2)
      ∷ sizing_with fixed_dollar none (some (truthy usdt (F.mul account.total_balance pct)))
          (F.decimal 25 2)
      ∷ sizing_with percent_risk (some pct) none (F.decimal 25 2)
      ∷ sizing_with kelly none none fraction
      ∷ []

  -- the results by method: `none` is the entry of an error
  unfoldable pub compare_all :
      RawSignal A
      → AccountState A
      → ℕ
      → String
      → A
      → Option A
      → A
      → Option (TradeStatistics A)
      → List (SizingMethod × Option (SizingResult A))
  compare_all signal account leverage symbol pct usdt fraction stats =
      map (λ c. (c.method, calculate c signal account leverage symbol stats))
        (compared_configs account pct usdt fraction)

  -- `PositionSizingEngine.validate`
  unfoldable pub validate_sizing : SizingResult A → A → A → String → Bool
  validate_sizing r available_balance entry symbol =
      validate_position_size F
        (record {
          quantity = r.quantity;
          margin_used = r.margin_used;
          position_value = r.position_value;
          max_loss = r.max_loss;
          max_profit = r.max_profit;
          final_leverage = r.final_leverage;
        })
        available_balance entry symbol
