-- ===== src/Orchestrator/Steps.antt =====
-- agents/orchestrator/pipeline.py: `_run_step`, `_finish`, `_append_skipped` and the helpers that
-- build a review and a raw signal.
use leverage_agnet.Common.{
  none, or_else, some, true, ◌||◌, [], ◌==◌, false, if◌then◌else◌, ◌∷◌, Bool, ◌++◌, String, Option,
  List,
}
use leverage_agnet.Common.Number
use leverage_agnet.Common.Number.{Number}
use leverage_agnet.Trading.{RawSignal, TradeCandidate, approve, ReviewResult}
use leverage_agnet.Decision.Final.{Config}
use leverage_agnet.Execution.Types.{ExecutionRequest, ExecutionResult}
use leverage_agnet.Orchestrator.Runner.{AgentResult, skipped, run, Outcome}
use leverage_agnet.Orchestrator.Types.{
  rank, step_retries, PipelineResult, Session, DecisionResult, Step, StepName, PipelineStatus,
}

abbrev pub is_recorded : StepName → List Step → Bool
is_recorded n [] = false
is_recorded n (s ∷ steps) = rank s.name == rank n || is_recorded n steps

-- `_append_skipped`: `recorded` is the set of names before the loop
abbrev pub skips : List Step → List StepName → List Step
skips recorded [] = []
skips recorded (n ∷ ns) =
    let rest = skips recorded ns in
    if is_recorded n recorded
    then rest
    else record { name = n; status = skipped; attempt = 1 } ∷ rest

abbrev pub append_skipped : List Step → List StepName → List Step
append_skipped steps ns = steps ++ skips steps ns

abbrev pub step_of : {B : Type 0} → StepName → AgentResult B → Step
step_of name r = record { name = name; status = r.status; attempt = r.attempt }

module _ {A W : Type 0} where
  -- `_finish`
  unfoldable pub finish :
      PipelineStatus
      → List StepName
      → Option (ExecutionResult A)
      → Session A W
      → PipelineResult A × Session A W
  finish status skip result s =
      let steps = append_skipped s.steps skip in
      (
        record { status = status; steps = steps; execution_result = result },
        record s { steps = steps },
      )

  -- `_run_step`: the step's output, `none` if it failed. The delays are in seconds.
  unfoldable pub run_step :
      {B : Type 0} → StepName → (W → Outcome B × W) → Session A W → Option B × Session A W
  run_step name call s =
      let (r, w) = run 1 call (step_retries name) s.world in
      (r.output, record s { world = w; steps = s.steps ++ step_of name r ∷ [] })

-- a call of the execution engine, and the request that it was given
abbrev pub recording :
    {R W B : Type 0} → (W → Outcome B × W) → R → W × List R → Outcome B × (W × List R)
recording call req x = ((call x.0).0, ((call x.0).1, req ∷ x.1))

-- the session while the requests are recorded, and afterwards
abbrev pub watch : {A W : Type 0} → Session A W → Session A (W × List (ExecutionRequest A))
watch s = record { world = (s.world, s.requests); steps = s.steps; requests = [] }

abbrev pub unwatch : {A W : Type 0} → Session A (W × List (ExecutionRequest A)) → Session A W
unwatch t = record { world = t.world.0; steps = t.steps; requests = t.world.1 }

module _ {A : Type 0} (F : Number A) where
  -- `_shadow_ai_review_skipped`
  abbrev pub shadow_ai_review_skipped : ReviewResult A
  shadow_ai_review_skipped = record {
    review_action = approve;
    confidence = Number.one F;
    critical_contradiction = false;
  }

-- `_ai_review_required`: it reads the configuration itself, not its `decision` section
abbrev pub ai_review_required : {A : Type 0} → Option (Config A) → Bool
ai_review_required none = true
ai_review_required (some c) = or_else c.top.ai_review_required true

-- `_build_raw_signal_from_candidate`
abbrev pub build_raw_signal :
    {A : Type 0} → String → String → DecisionResult A → TradeCandidate A → RawSignal A
build_raw_signal coin symbol d c = record {
  direction = c.action;
  coin = coin;
  symbol = symbol;
  confidence = d.confidence;
  entry_price = c.entry_price;
  take_profit = c.take_profit;
  stop_loss = c.stop_loss;
  leverage = c.leverage;
}
