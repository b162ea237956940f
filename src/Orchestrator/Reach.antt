-- ===== src/Orchestrator/Reach.antt =====
-- The case rule for a whole run of the pipeline.
use leverage_agnet.Common.{
  inr, inl, ◌++◌, ap, ◌∙◌, or_else, ◌∷◌, ◌≡◌, arith, not, if_cases, Option, true, [], refl, some,
  none,
}
use leverage_agnet.Common.Number
use leverage_agnet.Common.Number.{Number}
use leverage_agnet.Trading.{
  FinalDecision, is_trade, ValidationResult, RawSignal, ReviewResult, TradeCandidate,
}
use leverage_agnet.Decision.Final.{decide_final_action, is_reject}
use leverage_agnet.Orchestrator.Early.{
  run_decision, run_strategy, run_technical, after_candidate, after_market, run_pipeline,
  after_decision,
}
use leverage_agnet.Orchestrator.Flow.{
  IsProposed, IsReviewed, after_portfolio_cases, IsValidated, stop, Ways,
}
use leverage_agnet.Orchestrator.Pipeline.{
  final_call, run_final, run_portfolio, after_final, after_risk, run_risk, after_review, run_review,
  symbol,
}
use leverage_agnet.Orchestrator.Progress.{
  fresh, run_step-answer, append_skipped-names, run_step-IsAt, IsAt,
}
use leverage_agnet.Orchestrator.Runner.{settle, Outcome, timed_out, finished, raised}
use leverage_agnet.Orchestrator.Steps.{
  ai_review_required, build_raw_signal, run_step, append_skipped,
}
use leverage_agnet.Orchestrator.Types.{
  portfolio, final_decision, risk, market_data, ai_review, DecisionResult, Session, PipelineResult,
  PipelineInput, OrchestratorDeps, hold, failed, decision, strategy, technical,
}

module _ {A W Snapshot Technical Signal : Type 0} (F : Number A)
    (deps : OrchestratorDeps A W Snapshot Technical Signal) (inp : PipelineInput A)
    (P : PipelineResult A × Session A W → Type 0) (ways : Ways F deps inp P) where
  abbrev IsRaw : DecisionResult A → TradeCandidate A → RawSignal A → Type 0
  IsRaw d c raw = raw ≡ build_raw_signal inp.coin (symbol F deps inp) d c

  abbrev IsMade : Snapshot → DecisionResult A → Type 0
  IsMade snap d =
      (ta : Technical) × (signal : Signal) × (w : W) × (w' : W) × (deps.decision inp snap ta signal
          w
        ≡ (finished d, w'))

  final_call-decided :
      (c : TradeCandidate A) (review : ReviewResult A) (v : ValidationResult A)
      (fd : FinalDecision A) (w w' : W)
      → final_call F deps inp c review v w ≡ (finished fd, w')
      → fd ≡ decide_final_action F (some c) (some review) (some v) inp.decision_config
  final_call-decided c review v fd w w' e = settled (deps.final_thread w).0 (ap (λ x. x.0) e)
    where
      settled :
          (t : Outcome Unit)
          → settle
              (λ _.
                finished
                  (decide_final_action F (some c) (some review) (some v) inp.decision_config))
              timed_out
              t
            ≡ finished fd
          → fd ≡ decide_final_action F (some c) (some review) (some v) inp.decision_config
      settled (finished _) e = cc
      settled timed_out e = cc
      settled raised e = cc

  module _ (snap : Snapshot) (d : DecisionResult A) (c : TradeCandidate A) (review : ReviewResult A)
      (raw : RawSignal A) (is_raw : IsRaw d c raw) (is_proposed : IsProposed F deps inp snap d c)
      (is_reviewed : IsReviewed F deps inp d c review) where
    after_final_cases :
        (v : ValidationResult A) (x : Option (FinalDecision A) × Session A W)
        → IsValidated F deps inp snap d c v
        → ((fd : FinalDecision A)
            → x.0 ≡ some fd
            → fd ≡ decide_final_action F (some c) (some review) (some v) inp.decision_config)
        → IsAt 7 x.1
        → P (after_final F deps inp c raw v x)
    unfolding after_final run_portfolio
    after_final_cases v (none, s) valid decided h =
        stop F deps inp P ways hold 7 s (omega arith) refl h
    after_final_cases v (some fd, s) valid decided h =
        let call = deps.can_add_position inp (or_else v.max_loss_usdt (Number.nil F)) in
        if_cases P (not (is_trade fd.action)) _ _
          (λ _. stop F deps inp P ways hold 7 s (omega arith) refl h)
          (λ e.
            after_portfolio_cases F deps inp P ways c raw v fd (run_step portfolio call s)
              (λ added. record {
                review = review;
                is_validated = valid;
                is_decided = decided fd refl;
                is_trade = ground arith;
                is_added = run_step-answer portfolio call s true added;
                snapshot = snap;
                decision = d;
                is_proposed = is_proposed;
                is_reviewed = is_reviewed;
                is_signal = is_raw;
              })
              (run_step-IsAt 7 portfolio call s refl h))

    after_risk_cases :
        (x : Option (ValidationResult A) × Session A W)
        → ((v : ValidationResult A) → x.0 ≡ some v → IsValidated F deps inp snap d c v)
        → IsAt 6 x.1
        → P (after_risk F deps inp c review raw x)
    unfolding after_risk run_final
    after_risk_cases (none, s) valid h = stop F deps inp P ways hold 6 s (omega arith) refl h
    after_risk_cases (some v, s) valid h =
        let call = final_call F deps inp c review v in
        if_cases P (not v.approved) _ _ (λ _. stop F deps inp P ways hold 6 s (omega arith) refl h)
          (λ _.
            after_final_cases v (run_step final_decision call s) (valid v refl)
              (λ fd e.
                let (w, w', answered) = run_step-answer final_decision call s fd e in
                final_call-decided c review v fd w w' answered)
              (run_step-IsAt 6 final_decision call s refl h))

  run_risk_cases :
      (snap : Snapshot) (d : DecisionResult A) (c : TradeCandidate A) (review : ReviewResult A)
      (s : Session A W)
      → IsProposed F deps inp snap d c
      → IsReviewed F deps inp d c review
      → IsAt 5 s
      → P (run_risk F deps inp snap d c review s)
  unfolding run_risk
  run_risk_cases snap d c review s proposed reviewed h =
      let call = deps.validate_candidate c inp d.regime snap in
      after_risk_cases snap d c review (build_raw_signal inp.coin (symbol F deps inp) d c) refl
        proposed reviewed (run_step risk call s) (λ v e. run_step-answer risk call s v e)
        (run_step-IsAt 5 risk call s refl h)

  after_review_cases :
      (snap : Snapshot) (d : DecisionResult A) (c : TradeCandidate A)
      (x : Option (ReviewResult A) × Session A W)
      → IsProposed F deps inp snap d c
      → ((review : ReviewResult A) → x.0 ≡ some review → IsReviewed F deps inp d c review)
      → IsAt 5 x.1
      → P (after_review F deps inp snap d c x)
  unfolding after_review
  after_review_cases snap d c (none, s) proposed reviewed h =
      stop F deps inp P ways hold 5 s (omega arith) refl h
  after_review_cases snap d c (some review, s) proposed reviewed h =
      if_cases P (is_reject review.review_action) _ _
        (λ _. stop F deps inp P ways hold 5 s (omega arith) refl h)
        (λ _. run_risk_cases snap d c review s proposed (reviewed review refl) h)

  skipped-IsAt :
      (s : Session A W)
      → IsAt 4 s
      → IsAt 5 (record s { steps = append_skipped s.steps (ai_review ∷ []) })
  skipped-IsAt s h = record {
    has_names =
        append_skipped-names s.steps (ai_review ∷ [])
        ∙ ap (λ l. l ++ fresh l (ai_review ∷ [])) h.has_names;
    has_none = h.has_none;
  }

  run_review_cases :
      (snap : Snapshot) (d : DecisionResult A) (c : TradeCandidate A) (s : Session A W)
      → IsProposed F deps inp snap d c
      → IsAt 4 s
      → P (run_review F deps inp snap d c s)
  unfolding run_review
  run_review_cases snap d c s proposed h =
      if_cases P (not (ai_review_required inp.decision_config)) _ _
        (λ e.
          run_risk_cases snap d c _ _ proposed (inl (ground (arith, e), refl)) (skipped-IsAt s h))
        (λ _.
          after_review_cases snap d c (run_step ai_review (deps.review d c) s) proposed
            (λ review e. inr (run_step-answer ai_review (deps.review d c) s review e))
            (run_step-IsAt 4 ai_review (deps.review d c) s refl h))

  after_candidate_cases :
      (snap : Snapshot) (d : DecisionResult A) (c : Option (TradeCandidate A)) (s : Session A W)
      → d.candidate ≡ c
      → IsMade snap d
      → IsAt 4 s
      → P (after_candidate F deps inp snap d c s)
  unfolding after_candidate
  after_candidate_cases snap d none s e made h =
      stop F deps inp P ways hold 4 s (omega arith) refl h
  after_candidate_cases snap d (some c) s e made h =
      if_cases P (not (is_trade c.action)) _ _
        (λ _. stop F deps inp P ways hold 4 s (omega arith) refl h)
        (λ _. run_review_cases snap d c s (e, made) h)

  after_decision_cases :
      (snap : Snapshot) (x : Option (DecisionResult A) × Session A W)
      → ((d : DecisionResult A) → x.0 ≡ some d → IsMade snap d)
      → IsAt 4 x.1
      → P (after_decision F deps inp snap x)
  unfolding after_decision
  after_decision_cases snap (none, s) made h = stop F deps inp P ways hold 4 s (omega arith) refl h
  after_decision_cases snap (some d, s) made h =
      after_candidate_cases snap d d.candidate s refl (made d refl) h

  after_market_cases :
      (x : Option Snapshot × Session A W) → IsAt 1 x.1 → P (after_market F deps inp x)
  unfolding after_market run_technical run_strategy run_decision
  after_market_cases (none, s) h = stop F deps inp P ways failed 1 s (omega arith) refl h
  after_market_cases (some snap, s) h =
      let (ta, s₂) = run_step technical (deps.technical snap (symbol F deps inp)) s in
      let ta' = or_else ta deps.neutral_technical in
      let (signal, s₃) = run_step strategy (deps.strategy snap ta') s₂ in
      let call = deps.decision inp snap ta' (or_else signal deps.neutral_signal) in
      after_decision_cases snap (run_step decision call s₃)
        (λ d e.
          let (w, w', answered) = run_step-answer decision call s₃ d e in
          (ta', or_else signal deps.neutral_signal, w, w', answered))
        (run_step-IsAt 3 decision call s₃ refl (
          run_step-IsAt 2 strategy (deps.strategy snap ta') s₂ refl
            (run_step-IsAt 1 technical (deps.technical snap (symbol F deps inp)) s refl h)))

  pub run_pipeline_cases : (w : W) → P (run_pipeline F deps inp w)
  unfolding run_pipeline
  run_pipeline_cases w =
      let s : Session A W = record { world = w; steps = []; requests = [] } in
      after_market_cases (run_step market_data (deps.get_snapshot inp.coin) s) (
        run_step-IsAt 0 market_data (deps.get_snapshot inp.coin) s refl
          (record { has_names = refl; has_none = refl }))
