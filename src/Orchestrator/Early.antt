-- ===== src/Orchestrator/Early.antt =====
-- agents/orchestrator/pipeline.py: the first four steps of `OrchestratorPipeline.run`, and `run`.
use leverage_agnet.Common.{not, if◌then◌else◌, [], or_else, Option, some, none}
use leverage_agnet.Common.Number.{Number}
use leverage_agnet.Trading.{is_trade, TradeCandidate}
use leverage_agnet.Orchestrator.Pipeline.{run_review, symbol, steps_from}
use leverage_agnet.Orchestrator.Steps.{finish, run_step}
use leverage_agnet.Orchestrator.Types.{
  market_data, Session, PipelineResult, DecisionResult, PipelineInput, OrchestratorDeps, hold,
  failed, strategy, technical, decision,
}

module _ {A W Snapshot Technical Signal : Type 0} (F : Number A)
    (deps : OrchestratorDeps A W Snapshot Technical Signal) (inp : PipelineInput A) where
  -- Step 4
  unfoldable pub after_candidate :
      Snapshot
      → DecisionResult A
      → Option (TradeCandidate A)
      → Session A W
      → PipelineResult A × Session A W
  after_candidate snap d none s = finish hold (steps_from 4) none s
  after_candidate snap d (some c) s =
      if not (is_trade c.action)
      then finish hold (steps_from 4) none s
      else run_review F deps inp snap d c s

  unfoldable pub after_decision :
      Snapshot → Option (DecisionResult A) × Session A W → PipelineResult A × Session A W
  after_decision snap (none, s) = finish hold (steps_from 4) none s
  after_decision snap (some d, s) = after_candidate snap d d.candidate s

  unfoldable pub run_decision :
      Snapshot → Technical → Signal → Session A W → PipelineResult A × Session A W
  run_decision snap ta signal s =
      after_decision snap (run_step decision (deps.decision inp snap ta signal) s)

  -- Steps 2 and 3: a failure is replaced by the neutral value
  unfoldable pub run_strategy : Snapshot → Technical → Session A W → PipelineResult A × Session A W
  run_strategy snap ta s =
      let (signal, s') = run_step strategy (deps.strategy snap ta) s in
      run_decision snap ta (or_else signal deps.neutral_signal) s'

  unfoldable pub run_technical : Snapshot → Session A W → PipelineResult A × Session A W
  run_technical snap s =
      let (ta, s') = run_step technical (deps.technical snap (symbol F deps inp)) s in
      run_strategy snap (or_else ta deps.neutral_technical) s'

  -- Step 1
  unfoldable pub after_market : Option Snapshot × Session A W → PipelineResult A × Session A W
  after_market (none, s) = finish failed (steps_from 1) none s
  after_market (some snap, s) = run_technical snap s

  unfoldable pub run_pipeline : W → PipelineResult A × Session A W
  run_pipeline w = after_market (
      run_step market_data (deps.get_snapshot inp.coin)
        (record { world = w; steps = []; requests = [] }))
