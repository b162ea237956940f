-- ===== src/Orchestrator/Flow.antt =====
-- The ways in which a run of the pipeline ends, as one case rule.
use leverage_agnet.Common.{
  ◌⊎◌, ap, drop, ◌∙◌, ◌++◌, or_else, take, ◌∷◌, arith, ◌<◌, Bool, Option, ℕ, ◌≡◌, false, true, [],
  refl, some, none,
}
use leverage_agnet.Common.Number
use leverage_agnet.Common.Number.{Number}
use leverage_agnet.Trading.{
  is_trade, ReviewResult, FinalDecision, ValidationResult, RawSignal, TradeCandidate,
}
use leverage_agnet.Decision.Final.{decide_final_action}
use leverage_agnet.Execution.Types.{ExecutionResult}
use leverage_agnet.Orchestrator.Pipeline.{
  conclude, steps_from, request, run_position, after_portfolio, run_execution, after_execution,
  after_position, symbol,
}
use leverage_agnet.Orchestrator.Progress.{
  stop-names, run_step-names, run_step-IsAt, fresh, run_step-IsRepeated, IsRepeated, names, IsAt,
}
use leverage_agnet.Orchestrator.Runner.{finished}
use leverage_agnet.Orchestrator.Steps.{
  unwatch, watch, shadow_ai_review_skipped, ai_review_required, recording, finish, build_raw_signal,
  append_skipped, run_step,
}
use leverage_agnet.Orchestrator.Types.{
  position_manager, DecisionResult, step_names, rejected, rank_of, PipelineStatus, Session,
  PipelineResult, PipelineInput, OrchestratorDeps, failed, execution,
}

module _ {A W Snapshot Technical Signal : Type 0} (F : Number A)
    (deps : OrchestratorDeps A W Snapshot Technical Signal) (inp : PipelineInput A) where
  -- the decision agent answered `d` to the snapshot, with the candidate `c`
  abbrev pub IsProposed : Snapshot → DecisionResult A → TradeCandidate A → Type 0
  IsProposed snap d c =
      (d.candidate ≡ some c)
      × ((ta : Technical) × (signal : Signal) × (w : W) × (w' : W) × (deps.decision inp snap ta
              signal w
            ≡ (finished d, w')))

  -- the risk engine answered `v` in the decision's regime
  abbrev pub IsValidated :
      Snapshot → DecisionResult A → TradeCandidate A → ValidationResult A → Type 0
  IsValidated snap d c v =
      (w : W) × (w' : W) × (deps.validate_candidate c inp d.regime snap w ≡ (finished v, w'))

  -- the reviewer answered `review`, or the configuration asks for no review and it stands for one
  abbrev pub IsReviewed : DecisionResult A → TradeCandidate A → ReviewResult A → Type 0
  IsReviewed d c review =
      ((ai_review_required inp.decision_config ≡ false) × (review ≡ shadow_ai_review_skipped F))
      ⊎ ((w : W) × (w' : W) × (deps.review d c w ≡ (finished review, w')))

  -- what stands behind an order request
  pub record IsCleared (c : TradeCandidate A) (raw : RawSignal A) (v : ValidationResult A)
      (fd : FinalDecision A) : Type 0 where
    pub review : ReviewResult A
    pub snapshot : Snapshot
    pub decision : DecisionResult A
    pub is_proposed : IsProposed snapshot decision c
    pub is_reviewed : IsReviewed decision c review
    pub is_validated : IsValidated snapshot decision c v
    pub is_decided : fd ≡ decide_final_action F (some c) (some review) (some v) inp.decision_config
    pub is_trade : is_trade fd.action ≡ true
    pub is_added :
        (w : W) × (w' : W) × (deps.can_add_position inp (or_else v.max_loss_usdt (Number.nil F)) w
          ≡ (finished true, w'))
    pub is_signal : raw ≡ build_raw_signal inp.coin (symbol F deps inp) decision c

  -- A property of runs that holds of each way to end. No order is requested on the first way, and
  -- one, up to four times, on the two others.
  pub record Ways (P : PipelineResult A × Session A W → Type 0) : Type 0 where
    pub stops :
        (status : PipelineStatus) (k : ℕ) (s : Session A W)
        → rank_of status < 3
        → s.requests ≡ []
        → names (append_skipped s.steps (steps_from k)) ≡ step_names
        → P (finish status (steps_from k) none s)
    pub breaks :
        (c : TradeCandidate A) (raw : RawSignal A) (v : ValidationResult A) (fd : FinalDecision A)
        (s : Session A W)
        → IsCleared c raw v fd
        → IsRepeated (request F deps inp c raw v fd) s.requests
        → names s.steps ≡ step_names
        → P (finish failed [] none s)
    pub ends :
        (c : TradeCandidate A) (raw : RawSignal A) (v : ValidationResult A) (fd : FinalDecision A)
        (er : ExecutionResult A) (s : Session A W)
        → IsCleared c raw v fd
        → IsRepeated (request F deps inp c raw v fd) s.requests
        → names s.steps ≡ step_names
        → P (conclude F deps inp c raw v er s)

module _ {A W Snapshot Technical Signal : Type 0} (F : Number A)
    (deps : OrchestratorDeps A W Snapshot Technical Signal) (inp : PipelineInput A)
    (P : PipelineResult A × Session A W → Type 0) (ways : Ways F deps inp P) where
  pub stop :
      (status : PipelineStatus) (k : ℕ) (s : Session A W)
      → rank_of status < 3
      → take k step_names ++ fresh (take k step_names) (drop k step_names) ≡ step_names
      → IsAt k s
      → P (finish status (steps_from k) none s)
  stop status k s early all h = ways.stops status k s early h.has_none (stop-names k s all h)

  module _ (c : TradeCandidate A) (raw : RawSignal A) (v : ValidationResult A)
      (fd : FinalDecision A) where
    after_execution_cases :
        (x : Option (ExecutionResult A) × Session A W)
        → IsCleared F deps inp c raw v fd
        → IsRepeated (request F deps inp c raw v fd) x.1.requests
        → names x.1.steps ≡ step_names
        → P (after_execution F deps inp c raw v x)
    unfolding after_execution
    after_execution_cases (none, s) ok r n = ways.breaks c raw v fd s ok r n
    after_execution_cases (some er, s) ok r n = ways.ends c raw v fd er s ok r n

    run_execution_cases :
        (s : Session A W)
        → IsCleared F deps inp c raw v fd
        → IsAt 9 s
        → P (run_execution F deps inp c raw v fd s)
    unfolding run_execution
    run_execution_cases s ok h =
        let req = request F deps inp c raw v fd in
        let step = run_step execution (recording (deps.execute req) req) (watch s) in
        after_execution_cases (step.0, unwatch step.1) ok
          (run_step-IsRepeated (deps.execute req) req s h.has_none)
          (run_step-names execution (recording (deps.execute req) req) (watch s)
            ∙ ap (λ l. l ++ execution ∷ []) h.has_names)

    after_position_cases :
        (x : Option {0} Unit × Session A W)
        → IsCleared F deps inp c raw v fd
        → IsAt 9 x.1
        → P (after_position F deps inp c raw v fd x)
    unfolding after_position
    after_position_cases (none, s) ok h = stop failed 9 s (omega arith) refl h
    after_position_cases (some _, s) ok h = run_execution_cases s ok h

    pub after_portfolio_cases :
        (x : Option Bool × Session A W)
        → (x.0 ≡ some true → IsCleared F deps inp c raw v fd)
        → IsAt 8 x.1
        → P (after_portfolio F deps inp c raw v fd x)
    unfolding after_portfolio run_position
    after_portfolio_cases (none, s) ok h = stop rejected 8 s (omega arith) refl h
    after_portfolio_cases (some false, s) ok h = stop rejected 8 s (omega arith) refl h
    after_portfolio_cases (some true, s) ok h =
        let call = deps.open_position inp.user_id raw v in
        after_position_cases (run_step position_manager call s) (ok refl)
          (run_step-IsAt 8 position_manager call s refl h)
