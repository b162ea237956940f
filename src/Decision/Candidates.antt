-- ===== src/Decision/Candidates.antt =====
-- What a generated candidate is, and what an approval of it means.
use leverage_agnet.Common.{
  ◌&&◌, Option, or_else, arith, if_cases, inr, inl, refl, some, none, ◌≡◌, true, false, ◌≤◌, ◌⊎◌,
}
use leverage_agnet.Common.Number
use leverage_agnet.Common.Number.{Number}
use leverage_agnet.Trading.{TradeCandidate, Action, long, short, hold}
use leverage_agnet.Decision.Exits.{compute_exits, Exits}
use leverage_agnet.Decision.Final.{is_unknown}
use leverage_agnet.Decision.Generator.{
  loss, gain, required_rr, with_exits, total_risk, max_risk, entry_of, make_candidate,
  max_leverage_of, short_strong, directed, make_hold, strategy_of, generate_trade_candidate,
  with_entry, candidate_leverage, long_strong, GeneratorInput,
}
use leverage_agnet.Decision.Inputs.{read}

-- A candidate with a direction: what the generator has found out before.
pub record IsTradable {A : Type 0} (F : Number A) (i : GeneratorInput A) (action : Action)
    (entry : A) (e : Exits A) : Type 0 where
  pub is_known : is_unknown (strategy_of F i) ≡ false
  pub is_quiet : or_else (read (λ n. n.no_trade_flag) i.news_score) false ≡ false
  pub is_calm : F.ltb (max_risk F i) (total_risk F i) ≡ false
  pub has_price : entry_of F i ≡ some entry
  pub is_positive : F.leb entry (Number.nil F) ≡ false
  pub has_exits :
      compute_exits F action entry i.technical_result i.strategy_signal (required_rr F i) i.config
      ≡ some e
  pub gains : F.leb (gain F i action entry e.target) (Number.nil F) ≡ false
  pub loses : F.leb (loss F i action entry e.stop) (Number.nil F) ≡ false

-- the side whose score is strong, alone
abbrev pub IsStronger : {A : Type 0} → Number A → GeneratorInput A → Action → Type 0
IsStronger F i long = (long_strong F i ≡ true) × (short_strong F i ≡ false)
IsStronger F i short = (long_strong F i ≡ false) × (short_strong F i ≡ true)
IsStronger F i hold = ⊥

module _ {A : Type 0} (F : Number A) (i : GeneratorInput A) where
  -- the two outcomes of the generator
  abbrev pub IsGenerated : TradeCandidate A → Type 0
  IsGenerated c =
      (c ≡ make_hold F i)
      ⊎ ((action : Action) × (entry : A) × (e : Exits A) × (c ≡ make_candidate F i action entry e)
          × IsStronger F i action
          × IsTradable F i action entry e)

  module _ (is_known : is_unknown (strategy_of F i) ≡ false)
      (is_quiet : or_else (read (λ n. n.no_trade_flag) i.news_score) false ≡ false)
      (is_calm : F.ltb (max_risk F i) (total_risk F i) ≡ false) (entry : A)
      (has_price : entry_of F i ≡ some entry) (is_positive : F.leb entry (Number.nil F) ≡ false)
      (action : Action) (stronger : IsStronger F i action) where
    with_exits-IsGenerated :
        (o : Option (Exits A))
        → compute_exits F action entry i.technical_result i.strategy_signal
            (required_rr F i)
            i.config
          ≡ o
        → IsGenerated (with_exits F i action entry o)
    unfolding with_exits
    with_exits-IsGenerated none h = inl refl
    with_exits-IsGenerated (some e) h =
        if_cases IsGenerated _ (make_hold F i) (make_candidate F i action entry e) (λ _. inl refl)
          (λ g. inr (
            action,
            entry,
            e,
            refl,
            stronger,
            record {
              is_known = is_known;
              is_quiet = is_quiet;
              is_calm = is_calm;
              has_price = has_price;
              is_positive = is_positive;
              has_exits = h;
              gains = ground (arith, g);
              loses = ground (arith, g);
            },
          ))

  with_entry-IsGenerated :
      is_unknown (strategy_of F i) ≡ false
      → or_else (read (λ n. n.no_trade_flag) i.news_score) false ≡ false
      → F.ltb (max_risk F i) (total_risk F i) ≡ false
      → (o : Option A) → entry_of F i ≡ o
      → IsGenerated (with_entry F i o)
  unfolding with_entry directed
  with_entry-IsGenerated k q c none h = inl refl
  with_entry-IsGenerated k q c (some entry) h =
      if_cases IsGenerated _ _ _ (λ _. inl refl)
        λ p.
          if_cases IsGenerated (long_strong F i && short_strong F i) _ _ (λ _. inl refl)
            λ both.
              if_cases IsGenerated (long_strong F i) _ _
                (λ l.
                  with_exits-IsGenerated k q c entry h p long (l, ground (arith, both, l)) _ refl)
                λ l.
                  if_cases IsGenerated (short_strong F i) _ _
                    (λ s. with_exits-IsGenerated k q c entry h p short (l, s) _ refl)
                    (λ _. inl refl)

  -- The generator holds, or it makes a candidate for the one side whose score is strong, with a known
  -- strategy, no news that forbids trading, a risk within the limit, a positive price, and a stop
  -- and a target on their sides of the price.
  pub generate_trade_candidate-IsGenerated : IsGenerated (generate_trade_candidate F i)
  unfolding generate_trade_candidate
  generate_trade_candidate-IsGenerated =
      if_cases IsGenerated _ _ _ (λ _. inl refl)
        λ k.
          if_cases IsGenerated _ _ _ (λ _. inl refl)
            λ q.
              if_cases IsGenerated _ _ _ (λ _. inl refl)
                λ c. with_entry-IsGenerated k q c (entry_of F i) refl

  -- The leverage of a candidate is between 1 and the configured maximum, if this is at least 1.
  pub candidate_leverage_bounds :
      1 ≤ max_leverage_of F i
      → (1 ≤ candidate_leverage F i) × (candidate_leverage F i ≤ max_leverage_of F i)
  unfolding candidate_leverage
  candidate_leverage_bounds h = ground (arith, h)
