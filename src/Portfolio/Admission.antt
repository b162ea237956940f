-- ===== src/Portfolio/Admission.antt =====
-- Portfolios that grow by admitted positions only.
use leverage_agnet.Portfolio.Engine.{can_add_position, build_snapshot}
use leverage_agnet.Portfolio.Types.{max_risk_usdt, risk_usdt, PortfolioPosition, AccountContext}
use leverage_agnet.Common.{arith, ◌∙◌, if◌then◌else◌, ◌≡◌, true, [], map, ◌∷◌, ◌++◌, List, refl, ap}
use leverage_agnet.Common.Number
use leverage_agnet.Common.Number.{IsOrdered, Number}
use leverage_agnet.Common.Sums.{sum_from, sum_from-append}

module _ {A : Type 0} (F : Number A) (account : AccountContext A) where
  -- a position is added if `can_add_position` lets its risk in
  unfoldable pub admit :
      PortfolioPosition A → List (PortfolioPosition A) → List (PortfolioPosition A)
  admit p ps = if can_add_position F ps account (risk_usdt F p) then ps ++ p ∷ [] else ps

  unfoldable pub admit_all :
      List (PortfolioPosition A) → List (PortfolioPosition A) → List (PortfolioPosition A)
  admit_all [] ps = ps
  admit_all (p ∷ new) ps = admit_all new (admit p ps)

  abbrev pub total_risk : List (PortfolioPosition A) → A
  total_risk ps = (build_snapshot F ps account).total_risk_usdt

  map-snoc :
      (p : PortfolioPosition A) (ps : List (PortfolioPosition A))
      → map (risk_usdt F) (ps ++ p ∷ []) ≡ map (risk_usdt F) ps ++ risk_usdt F p ∷ []
  map-snoc p [] = refl
  map-snoc p (q ∷ ps) = ap (λ l. risk_usdt F q ∷ l) (map-snoc p ps)

  total_risk-snoc :
      (p : PortfolioPosition A) (ps : List (PortfolioPosition A))
      → total_risk (ps ++ p ∷ []) ≡ F.add (total_risk ps) (risk_usdt F p)
  unfolding build_snapshot
  total_risk-snoc p ps =
      ap (sum_from F (Number.nil F)) (map-snoc p ps)
      ∙ sum_from-append F (map (risk_usdt F) ps) (risk_usdt F p ∷ []) (Number.nil F)

  module _ (ord : IsOrdered F) where
    admit-limit :
        (p : PortfolioPosition A) (ps : List (PortfolioPosition A))
        → F.leb (total_risk ps) (max_risk_usdt F account) ≡ true
        → F.leb (total_risk (admit p ps)) (max_risk_usdt F account) ≡ true
    unfolding admit can_add_position
    admit-limit p ps h = ground (
      arith,
      total_risk-snoc p ps,
      ord.ltb_not (max_risk_usdt F account) (F.add (total_risk ps) (risk_usdt F p)),
    )

    -- For ordered numbers: if the open positions are within the account's limit on the portfolio's
    -- risk, they stay so, whatever positions are offered after them, as long as each is added only
    -- if `can_add_position` lets its risk in.
    pub admit_all-limit :
        (new ps : List (PortfolioPosition A))
        → F.leb (total_risk ps) (max_risk_usdt F account) ≡ true
        → F.leb (total_risk (admit_all new ps)) (max_risk_usdt F account) ≡ true
    unfolding admit_all
    admit_all-limit [] ps h = h
    admit_all-limit (p ∷ new) ps h = admit_all-limit new (admit p ps) (admit-limit p ps h)

  -- In an account whose balance has fallen below a tenth of the initial one, nothing is admitted.
  pub admit_all-emergency :
      (new ps : List (PortfolioPosition A))
      → F.ltb account.available_balance (F.mul account.initial_balance (F.decimal 10 2)) ≡ true
      → admit_all new ps ≡ ps
  unfolding admit_all admit can_add_position build_snapshot
  admit_all-emergency [] ps h = refl
  admit_all-emergency (p ∷ new) ps h = ground (arith, admit_all-emergency new ps h)

module _ {A : Type 0} (F : Number A) (ord : IsOrdered F) where
  -- For ordered numbers: no position has a risk below 0.
  pub risk_usdt-nonneg : (p : PortfolioPosition A) → F.leb (Number.nil F) (risk_usdt F p) ≡ true
  risk_usdt-nonneg p =
      let nil = Number.nil F in
      let long_risk = F.mul (F.sub p.entry_price p.stop_loss) p.quantity in
      let short_risk = F.mul (F.sub p.stop_loss p.entry_price) p.quantity in
      ground (
        arith,
        ord.leb_refl nil,
        ord.ltb_not nil long_risk,
        ord.ltb_not nil short_risk,
        ord.leb_total nil long_risk,
        ord.leb_total nil short_risk,
      )
