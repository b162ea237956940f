-- ===== src/Portfolio/Room.antt =====
-- When the risk score lets a position be added.
use leverage_agnet.Portfolio.Engine.{check_concentration}
use leverage_agnet.Portfolio.Exposure.{all_within}
use leverage_agnet.Portfolio.Score.{
  same_side, at_most_one, penalty_of, CorrelationRisk, CorrelationPair, calculate_risk_score,
  breaches_of,
}
use leverage_agnet.Portfolio.Types.{
  moderate, max_risk_usdt, portfolio_risk_limit, aggressive, conservative, RiskProfile,
  PortfolioSnapshot, max_single_coin_portfolio_ratio, AccountContext,
}
use leverage_agnet.Common.{
  ◌∙◌, sym, ◌&&◌, ◌≡◌, ◌↔◌, refl, if_cases, arith, List, String, [], ◌∷◌, true, false, ℕ,
}
use leverage_agnet.Common.Number
use leverage_agnet.Common.Number.{Number, IsOrdered}

module _ {A : Type 0} (F : Number A) (account : AccountContext A) where
  -- 15% of the balance for an aggressive profile, and 10% for another
  abbrev pub profile_share : RiskProfile → A
  profile_share conservative = F.decimal 10 2
  profile_share moderate = F.decimal 10 2
  profile_share aggressive = F.decimal 15 2

  abbrev pub limit_of : AccountContext A → A
  limit_of a = F.mul a.available_balance (profile_share a.risk_profile)

  -- each coin's share is within the limit
  abbrev pub AllWithin : List (String × A) → Type 0
  AllWithin [] = Unit
  AllWithin ((_, pct) ∷ rest) = (F.ltb (F.decimal 50 2) pct ≡ false) × AllWithin rest

  all_within-AllWithin :
      (l : List (String × A))
      → all_within F (max_single_coin_portfolio_ratio F) l ≡ true
      → AllWithin l
  all_within-AllWithin [] h = tt
  all_within-AllWithin ((_, pct) ∷ rest) h =
      let limit = max_single_coin_portfolio_ratio F in
      (ground (arith, h), all_within-AllWithin rest (ground (arith, h)))

  AllWithin-all_within :
      (l : List (String × A))
      → AllWithin l
      → all_within F (max_single_coin_portfolio_ratio F) l ≡ true
  AllWithin-all_within [] h = refl
  AllWithin-all_within ((_, pct) ∷ rest) (a, h) = rw a (AllWithin-all_within rest h)

  -- room for another position
  pub record IsRoomy (snap : PortfolioSnapshot A) : Type 0 where
    pub is_solvent : snap.is_emergency ≡ false
    pub is_below :
        (F.ltb (Number.nil F) (limit_of account)
          && F.leb (Number.one F) (F.div snap.total_risk_usdt (limit_of account)))
        ≡ false
    pub is_spread : AllWithin snap.coin_concentrations
    pub has_rest : F.ltb (Number.nil F) (F.sub (limit_of account) snap.total_risk_usdt) ≡ true

  left-max :
      (ord : IsOrdered F) (x : A)
      → F.ltb (Number.nil F) (Number.max F x (Number.nil F)) ≡ F.ltb (Number.nil F) x
  left-max ord x =
      let o = Number.nil F in
      ground (
        arith,
        ord.ltb_not o x,
        ord.ltb_not x o,
        ord.ltb_not o o,
        ord.leb_refl o,
        ord.leb_total o x,
      )

  limit_lem : max_risk_usdt F account ≡ limit_of account
  limit_lem = limit_of_profile account.risk_profile
    where
      limit_of_profile :
          (r : RiskProfile)
          → F.mul account.available_balance (portfolio_risk_limit F r)
            ≡ F.mul account.available_balance (profile_share r)
      limit_of_profile conservative = refl
      limit_of_profile moderate = refl
      limit_of_profile aggressive = refl

  -- The score lets a position be added exactly if the account is no emergency, the total risk is
  -- below a positive limit of 10% of the balance, or of 15% for an aggressive profile, no coin has
  -- more than half of the portfolio, and some of the limit is left.
  pub calculate_risk_score-IsRoomy :
      (ord : IsOrdered F) (snap : PortfolioSnapshot A) (corr : CorrelationRisk A)
      (leverages : List ℕ)
      → ((calculate_risk_score F snap corr account leverages).can_add ≡ true) ↔ IsRoomy snap
  unfolding calculate_risk_score breaches_of check_concentration
  calculate_risk_score-IsRoomy ord snap corr leverages =
      let rest = left-max ord (F.sub (max_risk_usdt F account) snap.total_risk_usdt) in
      (
        (λ h. record {
          is_solvent = ground (arith, h);
          is_below = rw (sym limit_lem) (ground (arith, h));
          is_spread = all_within-AllWithin snap.coin_concentrations (ground (arith, h));
          has_rest = rw (sym limit_lem) (sym rest ∙ ground (arith, h));
        }),
        (λ r.
            let below : (F.ltb (Number.nil F) (max_risk_usdt F account)
                  && F.leb (Number.one F) (F.div snap.total_risk_usdt (max_risk_usdt F account)))
                ≡ false =
              rw limit_lem r.is_below in
            let left : F.ltb (Number.nil F) (F.sub (max_risk_usdt F account) snap.total_risk_usdt)
                ≡ true =
              rw limit_lem r.has_rest in
            ground (
              arith,
              r.is_solvent,
              below,
              rest ∙ left,
              AllWithin-all_within snap.coin_concentrations r.is_spread,
            )),
      )

module _ {A : Type 0} (F : Number A) (ordered : IsOrdered F)
    (unit : F.leb (Number.nil F) (Number.one F) ≡ true) where
  abbrev pub IsFraction : A → Type 0
  IsFraction a = (F.leb (Number.nil F) a ≡ true) × (F.leb a (Number.one F) ≡ true)

  at_most_one-IsFraction : (a : A) → F.ltb (Number.nil F) a ≡ true → IsFraction (at_most_one F a)
  at_most_one-IsFraction a h = (
    ground (arith, h, unit, ordered.ltb_not (Number.nil F) a, ordered.leb_total (Number.nil F) a),
    ground (
      arith,
      ordered.leb_refl (Number.one F),
      ordered.ltb_not (Number.one F) a,
      ordered.leb_total (Number.one F) a,
    ),
  )

  -- The penalty for correlated positions lies between 0 and 1.
  pub penalty_of-IsFraction : (ps : List (CorrelationPair A)) → IsFraction (penalty_of F ps)
  penalty_of-IsFraction [] = (ordered.leb_refl (Number.nil F), unit)
  penalty_of-IsFraction (p ∷ ps) =
      if_cases IsFraction
        (same_side p.btc_direction p.eth_direction && F.ltb (Number.nil F) p.effective_rho)
        (at_most_one F p.effective_rho) (penalty_of F ps)
        (λ h. at_most_one-IsFraction p.effective_rho (ground (arith, h)))
        (λ _. penalty_of-IsFraction ps)
