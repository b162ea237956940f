-- ===== src/Portfolio/Score.antt =====
-- agents/portfolio/correlation.py and agents/portfolio/scorer.py. The texts of breaches and warnings
-- are left out, and `math.sqrt` is a parameter.
use leverage_agnet.Portfolio.Engine.{check_concentration, build_snapshot}
use leverage_agnet.Portfolio.Exposure.{sum_of}
use leverage_agnet.Portfolio.Types.{
  max_risk_usdt, max_single_coin_portfolio_ratio, risk_usdt, AccountContext, PortfolioPosition,
  PortfolioSnapshot,
}
use text.Mathlib.Text.{◌==◌ as ◌=text=◌}
use leverage_agnet.Common.{
  ◌==◌, not, ◌++◌, ◌+◌, ◌&&◌, Bool, if◌then◌else◌, String, List, false, true, [], map, ◌∷◌, length,
  ℕ,
}
use leverage_agnet.Common.Number
use leverage_agnet.Common.Number.{Number}
use leverage_agnet.Trading.{Action, short, long, hold}

pub record CorrelationPair (A : Type 0) : Type 0 where
  pub btc_direction : Action
  pub eth_direction : Action
  pub effective_rho : A

pub record CorrelationRisk (A : Type 0) : Type 0 where
  pub raw_risk_usdt : A
  pub adjusted_risk_usdt : A
  pub adjustment_factor : A
  pub correlation_coefficient : A
  pub pairs : List (CorrelationPair A)

pub data ScoreLevel : Type 0 where
  level_safe level_moderate level_elevated level_critical : ScoreLevel

pub data Breach : Type 0 where
  risk_breach concentration_breach emergency_breach : Breach

pub data ScoreWarning : Type 0 where
  risk_warning concentration_warning : ScoreWarning

pub record RiskScoreComponents (A : Type 0) : Type 0 where
  pub portfolio_risk_ratio : A
  pub concentration_ratio : A
  pub correlation_penalty : A
  pub leverage_ratio : A

pub record PortfolioRiskScore (A : Type 0) : Type 0 where
  pub score : A
  pub level : ScoreLevel
  pub components : RiskScoreComponents A
  pub breaches : List Breach
  pub warnings : List ScoreWarning
  pub can_add : Bool
  pub max_additional_risk_usdt : A

abbrev pub same_side : Action → Action → Bool
same_side long long = true
same_side short short = true
same_side hold hold = true
same_side _ _ = false

module _ {A : Type 0} (F : Number A) where
  abbrev pub coin_positions : String → List (PortfolioPosition A) → List (PortfolioPosition A)
  coin_positions coin [] = []
  coin_positions coin (p ∷ ps) =
      let later = coin_positions coin ps in if p.coin =text= coin then p ∷ later else later

  -- `_calc_2asset_risk`
  abbrev pub two_asset_risk : (A → A) → A → A → A → A
  two_asset_risk sqrt r1 r2 rho = sqrt (
      Number.max F
        (F.add (F.add (F.mul r1 r1) (F.mul r2 r2))
          (F.mul (F.mul (F.mul (F.decimal 2 0) rho) r1) r2))
        (Number.nil F))

  abbrev uncorrelated : A → A → CorrelationRisk A
  uncorrelated raw corr = record {
    raw_risk_usdt = raw;
    adjusted_risk_usdt = raw;
    adjustment_factor = Number.one F;
    correlation_coefficient = corr;
    pairs = [];
  }

  abbrev correlated :
      (A → A) → A → A → List (PortfolioPosition A) → List (PortfolioPosition A) → CorrelationRisk A
  correlated sqrt raw corr [] eth = uncorrelated raw corr
  correlated sqrt raw corr (b ∷ btc) [] = uncorrelated raw corr
  correlated sqrt raw corr (b ∷ btc) (e ∷ eth) =
      let rho = if same_side b.direction e.direction then corr else F.sub (Number.nil F) corr in
      let adjusted =
        two_asset_risk sqrt (sum_of F (risk_usdt F) (b ∷ btc)) (sum_of F (risk_usdt F) (e ∷ eth))
          rho in
      record {
        raw_risk_usdt = raw;
        adjusted_risk_usdt = F.quantize 4 adjusted;
        adjustment_factor =
            F.quantize 4 (if F.ltb (Number.nil F) raw then F.div adjusted raw else Number.one F);
        correlation_coefficient = corr;
        pairs =
            record {
              btc_direction = b.direction;
              eth_direction = e.direction;
              effective_rho = F.quantize 4 rho;
            }
            ∷ [];
      }

  unfoldable pub calculate_correlation_risk :
      (A → A) → List (PortfolioPosition A) → A → CorrelationRisk A
  calculate_correlation_risk sqrt ps corr =
      correlated sqrt (sum_of F (risk_usdt F) ps) corr (coin_positions "BTC" ps)
        (coin_positions "ETH" ps)

  -- `min(a, 1.0)`
  abbrev pub at_most_one : A → A
  at_most_one a = if F.ltb (Number.one F) a then Number.one F else a

  -- `_calc_correlation_penalty`
  abbrev pub penalty_of : List (CorrelationPair A) → A
  penalty_of [] = Number.nil F
  penalty_of (p ∷ ps) =
      let later = penalty_of ps in
      if same_side p.btc_direction p.eth_direction && F.ltb (Number.nil F) p.effective_rho
      then at_most_one p.effective_rho
      else later

  -- `_score_to_level`
  unfoldable pub score_to_level : A → ScoreLevel
  score_to_level score =
      if F.ltb score (F.decimal 30 2)
      then level_safe
      else if F.ltb score (F.decimal 50 2)
      then level_moderate
      else if F.ltb score (F.decimal 75 2)
      then level_elevated
      else level_critical

  -- `total_risk / limit`, if the limit is positive
  abbrev pub risk_ratio : PortfolioSnapshot A → AccountContext A → A
  risk_ratio snap account =
      if F.ltb (Number.nil F) (max_risk_usdt F account)
      then F.div snap.total_risk_usdt (max_risk_usdt F account)
      else Number.nil F

  abbrev pub exceeds_risk : PortfolioSnapshot A → AccountContext A → Bool
  exceeds_risk snap account =
      F.ltb (Number.nil F) (max_risk_usdt F account)
      && F.leb (Number.one F) (F.div snap.total_risk_usdt (max_risk_usdt F account))

  abbrev list_if : {C : Type 0} → Bool → C → List C
  list_if b c = if b then c ∷ [] else []

  -- `_check_rules`: the breaches, and the warnings
  unfoldable pub breaches_of : PortfolioSnapshot A → AccountContext A → List Breach
  breaches_of snap account =
      list_if (exceeds_risk snap account) risk_breach
      ++ list_if (not (check_concentration F snap)) concentration_breach
      ++ list_if snap.is_emergency emergency_breach

  unfoldable pub warnings_of : PortfolioSnapshot A → AccountContext A → List ScoreWarning
  warnings_of snap account =
      list_if
        (F.ltb (Number.nil F) (max_risk_usdt F account)
          && not (exceeds_risk snap account)
          && F.leb (F.decimal 80 2) (F.div snap.total_risk_usdt (max_risk_usdt F account)))
        risk_warning
      ++ list_if
          (check_concentration F snap
            && F.leb (F.mul (max_single_coin_portfolio_ratio F) (F.decimal 80 2))
                snap.max_concentration_pct)
          concentration_warning

  -- `_calc_max_additional_risk`
  abbrev pub max_additional_risk : PortfolioSnapshot A → AccountContext A → A
  max_additional_risk snap account =
      Number.max F (F.sub (max_risk_usdt F account) snap.total_risk_usdt) (Number.nil F)

  abbrev total : List ℕ → ℕ
  total [] = 0
  total (n ∷ ns) = n + total ns

  abbrev leverage_ratio_of : List ℕ → A
  leverage_ratio_of [] = at_most_one (F.div (Number.nil F) (F.decimal 20 0))
  leverage_ratio_of (n ∷ ns) = at_most_one (
      F.div (F.div (F.decimal (total (n ∷ ns)) 0) (F.decimal (length (n ∷ ns)) 0)) (F.decimal 20 0))

  unfoldable pub calculate_risk_score :
      PortfolioSnapshot A → CorrelationRisk A → AccountContext A → List ℕ → PortfolioRiskScore A
  calculate_risk_score snap corr account leverages =
      let risk = at_most_one (risk_ratio snap account) in
      let concentration =
        at_most_one (F.div snap.max_concentration_pct (max_single_coin_portfolio_ratio F)) in
      let penalty = penalty_of corr.pairs in
      let leverage = leverage_ratio_of leverages in
      let weighted =
        F.add
          (F.add (F.add (F.mul (F.decimal 40 2) risk) (F.mul (F.decimal 25 2) concentration))
            (F.mul (F.decimal 20 2) penalty))
          (F.mul (F.decimal 15 2) leverage) in
      let score = F.quantize 4 (at_most_one weighted) in
      record {
        score = score;
        level = score_to_level score;
        components = record {
          portfolio_risk_ratio = F.quantize 4 risk;
          concentration_ratio = F.quantize 4 concentration;
          correlation_penalty = F.quantize 4 penalty;
          leverage_ratio = F.quantize 4 leverage;
        };
        breaches = breaches_of snap account;
        warnings = warnings_of snap account;
        can_add =
            not snap.is_emergency
            && (length (breaches_of snap account) == 0)
            && F.ltb (Number.nil F) (max_additional_risk snap account);
        max_additional_risk_usdt = max_additional_risk snap account;
      }

  -- `PortfolioEngine.risk_score`
  unfoldable pub risk_score :
      (A → A) → A → List (PortfolioPosition A) → AccountContext A → PortfolioRiskScore A
  risk_score sqrt corr ps account =
      calculate_risk_score (build_snapshot F ps account) (calculate_correlation_risk sqrt ps corr)
        account (map (λ (p : PortfolioPosition A). p.leverage) ps)
