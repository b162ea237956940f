-- ===== src/Orchestrator/Pipeline.antt =====
-- agents/orchestrator/pipeline.py: `OrchestratorPipeline.run`. Each step of the source is two
-- definitions here: one that runs the step, and before it one that goes on with its output, or
-- with `none` if it failed. They stand in reverse order, the last step first. Log entries, the
-- rejection's reason and `ctx.errors` are left out.
use Prim.Native.String.{String, ◌++◌ as ◌+++◌}
use leverage_agnet.Common.{
  [], or_else, Bool, ◌∷◌, not, if◌then◌else◌, Option, List, ℕ, some, none, drop,
}
use leverage_agnet.Common.Number
use leverage_agnet.Common.Number.{Number}
use leverage_agnet.Trading.{
  is_trade, FinalDecision, ValidationResult, RawSignal, ReviewResult, TradeCandidate,
}
use leverage_agnet.Decision.Final.{decide_final_action, is_reject}
use leverage_agnet.Execution.Types.{other_version, ExecutionRequest, ExecutionResult}
use leverage_agnet.Orchestrator.PostTrade.{
  fire_order_filled_alert, fire_post_trade_hook, fire_emergency_alert,
}
use leverage_agnet.Orchestrator.Runner.{timed_out, finished, settle, Outcome}
use leverage_agnet.Orchestrator.Steps.{
  unwatch, watch, recording, append_skipped, shadow_ai_review_skipped, ai_review_required,
  build_raw_signal, run_step, finish,
}
use leverage_agnet.Orchestrator.Types.{
  completed, ai_review, emergency_closed, execution, position_manager, risk, final_decision,
  portfolio, PipelineResult, Session, step_names, DecisionResult, StepName, PipelineInput,
  OrchestratorDeps, hold, failed, rejected,
}

-- `_STEP_NAMES[n:]`
abbrev pub steps_from : ℕ → List StepName
steps_from n = drop n step_names

module _ {A W Snapshot Technical Signal : Type 0} (F : Number A)
    (deps : OrchestratorDeps A W Snapshot Technical Signal) (inp : PipelineInput A) where
  abbrev pub symbol : String
  symbol = inp.coin +++ "USDT"

  -- the end of a run whose order was executed, or refused without an exception
  unfoldable pub conclude :
      TradeCandidate A
      → RawSignal A
      → ValidationResult A
      → ExecutionResult A
      → Session A W
      → PipelineResult A × Session A W
  conclude c raw v er s =
      let closed = record s {
        world =
            fire_emergency_alert deps.alert_dispatcher raw er
              (fire_post_trade_hook F deps.post_trade_hook inp raw v er s.world);
      } in
      let filled = record s {
        world =
            if er.executed
            then fire_order_filled_alert deps.alert_dispatcher c raw v er s.world
            else s.world;
      } in
      if er.emergency_close_failed
      then finish failed [] (some er) s
      else if er.tp_sl_failed
      then finish emergency_closed [] (some er) closed
      else finish completed [] (some er) filled

  -- Step 10
  abbrev pub request :
      TradeCandidate A → RawSignal A → ValidationResult A → FinalDecision A → ExecutionRequest A
  request c raw v fd = record {
    signal = raw;
    user_id = inp.user_id;
    candidate = some c;
    final_decision = some fd;
    approved_validation = some v;
    strategy_version = some other_version;
  }

  unfoldable pub after_execution :
      TradeCandidate A
      → RawSignal A
      → ValidationResult A
      → Option (ExecutionResult A) × Session A W
      → PipelineResult A × Session A W
  after_execution c raw v (none, s) = finish failed [] none s
  after_execution c raw v (some er, s) = conclude c raw v er s

  -- Step 10: the runner may call the execution engine up to four times.
  unfoldable pub run_execution :
      TradeCandidate A
      → RawSignal A
      → ValidationResult A
      → FinalDecision A
      → Session A W
      → PipelineResult A × Session A W
  run_execution c raw v fd s =
      let req = request c raw v fd in
      let (o, t) = run_step execution (recording (deps.execute req) req) (watch s) in
      after_execution c raw v (o, unwatch t)

  -- Step 9
  unfoldable pub after_position :
      TradeCandidate A
      → RawSignal A
      → ValidationResult A
      → FinalDecision A
      → Option {0} Unit × Session A W
      → PipelineResult A × Session A W
  after_position c raw v fd (none, s) = finish failed (steps_from 9) none s
  after_position c raw v fd (some _, s) = run_execution c raw v fd s

  unfoldable pub run_position :
      TradeCandidate A
      → RawSignal A
      → ValidationResult A
      → FinalDecision A
      → Session A W
      → PipelineResult A × Session A W
  run_position c raw v fd s =
      after_position c raw v fd (run_step position_manager (deps.open_position inp.user_id raw v) s)

  -- Step 8
  unfoldable pub after_portfolio :
      TradeCandidate A
      → RawSignal A
      → ValidationResult A
      → FinalDecision A
      → Option Bool × Session A W
      → PipelineResult A × Session A W
  after_portfolio c raw v fd (none, s) = finish rejected (steps_from 8) none s
  after_portfolio c raw v fd (some can_add, s) =
      if not can_add then finish rejected (steps_from 8) none s else run_position c raw v fd s

  unfoldable pub run_portfolio :
      TradeCandidate A
      → RawSignal A
      → ValidationResult A
      → FinalDecision A
      → Session A W
      → PipelineResult A × Session A W
  run_portfolio c raw v fd s =
      after_portfolio c raw v fd
        (run_step portfolio (deps.can_add_position inp (or_else v.max_loss_usdt (Number.nil F))) s)

  -- Step 7
  unfoldable pub after_final :
      TradeCandidate A
      → RawSignal A
      → ValidationResult A
      → Option (FinalDecision A) × Session A W
      → PipelineResult A × Session A W
  after_final c raw v (none, s) = finish hold (steps_from 7) none s
  after_final c raw v (some fd, s) =
      if not (is_trade fd.action)
      then finish hold (steps_from 7) none s
      else run_portfolio c raw v fd s

  -- `asyncio.to_thread(decide_final_action, …)`
  abbrev pub final_call :
      TradeCandidate A → ReviewResult A → ValidationResult A → W → Outcome (FinalDecision A) × W
  final_call c review v w =
      let (thread, w') = deps.final_thread w in
      (
        settle
            (λ _.
              finished (decide_final_action F (some c) (some review) (some v) inp.decision_config))
            timed_out thread,
        w',
      )

  unfoldable pub run_final :
      TradeCandidate A
      → ReviewResult A
      → RawSignal A
      → ValidationResult A
      → Session A W
      → PipelineResult A × Session A W
  run_final c review raw v s =
      after_final c raw v (run_step final_decision (final_call c review v) s)

  -- Step 6
  unfoldable pub after_risk :
      TradeCandidate A
      → ReviewResult A
      → RawSignal A
      → Option (ValidationResult A) × Session A W
      → PipelineResult A × Session A W
  after_risk c review raw (none, s) = finish hold (steps_from 6) none s
  after_risk c review raw (some v, s) =
      if not v.approved then finish hold (steps_from 6) none s else run_final c review raw v s

  unfoldable pub run_risk :
      Snapshot
      → DecisionResult A
      → TradeCandidate A
      → ReviewResult A
      → Session A W
      → PipelineResult A × Session A W
  run_risk snap d c review s =
      after_risk c review (build_raw_signal inp.coin symbol d c)
        (run_step risk (deps.validate_candidate c inp d.regime snap) s)

  -- Step 5
  unfoldable pub after_review :
      Snapshot
      → DecisionResult A
      → TradeCandidate A
      → Option (ReviewResult A) × Session A W
      → PipelineResult A × Session A W
  after_review snap d c (none, s) = finish hold (steps_from 5) none s
  after_review snap d c (some review, s) =
      if is_reject review.review_action
      then finish hold (steps_from 5) none s
      else run_risk snap d c review s

  unfoldable pub run_review :
      Snapshot → DecisionResult A → TradeCandidate A → Session A W → PipelineResult A × Session A W
  run_review snap d c s =
      if not (ai_review_required inp.decision_config)
      then run_risk snap d c (shadow_ai_review_skipped F)
          (record s { steps = append_skipped s.steps (ai_review ∷ []) })
      else after_review snap d c (run_step ai_review (deps.review d c) s)
