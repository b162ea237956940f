-- ===== src/Decision/Chain.antt =====
-- From the selected strategy to the candidate and its approval by the risk engine.
use leverage_agnet.Redis.{Client}
use leverage_agnet.Risk.Approved.{validate_candidate-IsSafe, IsSafe}
use leverage_agnet.Risk.Candidate.{validate_candidate}
use leverage_agnet.Risk.Checks.{held_too_long, strategy_thresholds}
use leverage_agnet.Risk.Engine.{Losses}
use leverage_agnet.Risk.Settings.{RiskConfig, FundingContext}
use leverage_agnet.Risk.Types.{OpenPosition, AccountState, UserContext}
use leverage_agnet.Common.{
  subst, ◌∙◌, ℕ, ap, sym, or_else, arith, Option, inr, inl, refl, some, ◌≡◌, true, false, ◌<◌,
}
use leverage_agnet.Common.Calendar.{Time}
use leverage_agnet.Common.Number
use leverage_agnet.Common.Number.{Number}
use leverage_agnet.Trading.{
  long, short, hold, TradeCandidate, MarketRegime, Action, StrategyType, scalping, intraday,
  trend_following, breakout, is_trade,
}
use leverage_agnet.Decision.Candidates.{
  generate_trade_candidate-IsGenerated, IsTradable, IsStronger, IsGenerated,
}
use leverage_agnet.Decision.Exits.{Exits}
use leverage_agnet.Decision.Final.{is_unknown}
use leverage_agnet.Decision.Generator.{
  entry_of, holding_of, strategy_of, make_candidate, generate_trade_candidate, make_hold,
  GeneratorInput,
}
use leverage_agnet.Decision.Inputs.{
  read, StrategySelectionResult, MarketSnapshot, DerivativesScore, NewsScore, SignalScore,
}
use leverage_agnet.Decision.Selections.{select_strategy_type-IsSelected, IsSelected}
use leverage_agnet.Decision.Selector.{
  is_blocked, select_strategy_type, SelectorConfig, strategy_holding_minutes,
}

-- The holding times of the strategies are within their limits.
holding_fits :
    {A : Type 0} (F : Number A) (c : TradeCandidate A) (s : StrategyType)
    → is_unknown s ≡ false
    → c.expected_holding_minutes ≡ strategy_holding_minutes s
    → (0 < c.expected_holding_minutes) × (held_too_long F c (strategy_thresholds F s) ≡ false)
unfolding strategy_thresholds
holding_fits F c scalping h e = (omega (arith, e), rw e refl)
holding_fits F c intraday h e = (omega (arith, e), rw e refl)
holding_fits F c trend_following h e = (omega (arith, e), rw e refl)
holding_fits F c breakout h e = (omega (arith, e), rw e refl)
holding_fits F c StrategyType.unknown h e = cc

-- The stop and the target of a candidate are on their sides of the price.
abbrev pub IsSided : {A : Type 0} → Number A → Action → A → A → A → Type 0
IsSided F long entry stop target =
    (F.leb (F.sub target entry) (Number.nil F) ≡ false)
    × (F.leb (F.sub entry stop) (Number.nil F) ≡ false)
IsSided F short entry stop target =
    (F.leb (F.sub entry target) (Number.nil F) ≡ false)
    × (F.leb (F.sub stop entry) (Number.nil F) ≡ false)
IsSided F hold entry stop target = ⊥

-- What a candidate with a direction shows of the input it was made of.
pub record IsPlaced {A : Type 0} (F : Number A) (i : GeneratorInput A) (entry : A)
    (c : TradeCandidate A) : Type 0 where
  pub is_stronger : IsStronger F i c.action
  pub has_price : entry_of F i ≡ some entry
  pub is_positive : F.leb entry (Number.nil F) ≡ false
  pub is_entered : c.entry_price ≡ F.quantize 2 entry
  pub stop : A
  pub target : A
  pub has_stop : c.stop_loss ≡ some stop
  pub has_target : c.take_profit ≡ some target
  pub is_sided : IsSided F c.action entry stop target

module _ {A : Type 0} (F : Number A) (i : GeneratorInput A) where
  trade-made :
      IsGenerated F i (generate_trade_candidate F i)
      → is_trade (generate_trade_candidate F i).action ≡ true
      → (action : Action) × (entry : A) × (e : Exits A) × (generate_trade_candidate F i
          ≡ make_candidate F i action entry e)
        × IsStronger F i action
        × IsTradable F i action entry e
  unfolding make_hold
  trade-made (inl h) t =
      let g : is_trade hold ≡ true = ap (λ c. is_trade c.action) (sym h) ∙ t in cc
  trade-made (inr h) t = h

  tradable-IsSided :
      (action : Action) (entry : A) (e : Exits A)
      → IsStronger F i action
      → IsTradable F i action entry e
      → IsSided F action entry e.stop e.target
  tradable-IsSided long entry e s t = (t.gains, t.loses)
  tradable-IsSided short entry e s t = (t.gains, t.loses)
  tradable-IsSided hold entry e s t = s

  made-IsPlaced :
      {c : TradeCandidate A}
      → ((action : Action) × (entry : A) × (e : Exits A) × (c ≡ make_candidate F i action entry e)
          × IsStronger F i action
          × IsTradable F i action entry e)
      → (entry : A) × IsPlaced F i entry c
  unfolding make_candidate
  made-IsPlaced (action, entry, e, made, s, t) = (
    entry,
    record {
      is_stronger = subst (IsStronger F i) (sym (ap (λ c. c.action) made)) s;
      has_price = t.has_price;
      is_positive = t.is_positive;
      is_entered = ap (λ c. c.entry_price) made;
      stop = e.stop;
      target = e.target;
      has_stop = ap (λ c. c.stop_loss) made;
      has_target = ap (λ c. c.take_profit) made;
      is_sided =
          subst (λ a. IsSided F a entry e.stop e.target) (sym (ap (λ c. c.action) made))
            (tradable-IsSided action entry e s t);
    },
  )

  module _ {R : Type 0} (redis : Client A R) (ctx : UserContext A) (account : AccountState A)
      (losses : Losses A) (open_count : ℕ) (same_coin : Option OpenPosition)
      (regime : Option MarketRegime) (funding : Option (FundingContext A))
      (config : Option (RiskConfig A)) (reason : ℕ) (now : Time) where
    -- A generated candidate that the risk engine approves, whatever Redis answers, is for the one side
    -- whose score is strong and has the first price that the generator found as its entry; the
    -- target of a long one is above that price and the stop below it, of a short one the other
    -- way round, and it meets all that an approval guarantees.
    pub validate_candidate-generate_trade_candidate :
        (r : R)
        → let c = generate_trade_candidate F i in
          (validate_candidate F redis c ctx account losses open_count same_coin regime funding
              config reason now r).0.approved
            ≡ true
          → ((entry : A) × IsPlaced F i entry c)
            × IsSafe F c ctx account losses open_count same_coin regime funding config
    validate_candidate-generate_trade_candidate r h =
        let safe =
          (validate_candidate-IsSafe F redis (generate_trade_candidate F i) ctx account losses
            open_count same_coin regime funding config reason now r h).0 in
        (
          made-IsPlaced (trade-made (generate_trade_candidate-IsGenerated F i) safe.is_directed),
          safe,
        )

  module _ (regime : Option MarketRegime) (chart : Option (SignalScore A))
      (news : Option (NewsScore A)) (derivatives : Option (DerivativesScore A))
      (m : Option (MarketSnapshot A)) (config : Option (SelectorConfig A))
      (selected : i.strategy_selection
        ≡ some (select_strategy_type F regime chart news derivatives m config)) where
    selection-open :
        is_unknown (strategy_of F i) ≡ false
        → (r : StrategySelectionResult A) → i.strategy_selection ≡ some r
        → IsSelected F regime chart news derivatives m config r
        → (holding_of F i ≡ strategy_holding_minutes (strategy_of F i))
          × (is_blocked (or_else regime MarketRegime.unknown) ≡ false)
    selection-open k r h (inl u) =
        let g : is_unknown (strategy_of F i) ≡ true =
          ap (λ o. is_unknown (or_else (read (λ s. s.strategy_type) o) StrategyType.unknown)) h
          ∙ ap (λ s. is_unknown s.strategy_type) u in
        cc
    selection-open k r h (inr o) = (
      ap (λ o. or_else (read (λ s. s.expected_holding_minutes) o) 0) h
          ∙ ap (λ q. q.expected_holding_minutes) o.has_passed.made
          ∙ ap
              (λ o.
                strategy_holding_minutes
                  (or_else (read (λ s. s.strategy_type) o) StrategyType.unknown))
              (sym h),
      o.is_free,
    )

    -- A candidate with a direction that the generator makes of the selector's answer has a holding
    -- time that the risk engine accepts for its strategy, and the market regime is not blocked.
    pub generate_trade_candidate-select_strategy_type :
        let c = generate_trade_candidate F i in
        is_trade c.action ≡ true
        → (0 < c.expected_holding_minutes)
          × (held_too_long F c (strategy_thresholds F c.strategy_type) ≡ false)
          × (is_blocked (or_else regime MarketRegime.unknown) ≡ false)
    unfolding make_candidate
    generate_trade_candidate-select_strategy_type t =
        let (action, entry, e, made, _, tradable) =
          trade-made (generate_trade_candidate-IsGenerated F i) t in
        let hk =
          selection-open tradable.is_known _ selected
            (select_strategy_type-IsSelected F regime chart news derivatives m config) in
        let b : (generate_trade_candidate F i).strategy_type ≡ strategy_of F i =
          ap (λ c. c.strategy_type) made in
        let fits =
          holding_fits F (generate_trade_candidate F i) (generate_trade_candidate F i).strategy_type
            (ap is_unknown b ∙ tradable.is_known)
            (ap (λ c. c.expected_holding_minutes) made
              ∙ hk.0
              ∙ sym (ap strategy_holding_minutes b)) in
        (fits.0, fits.1, hk.1)
