-- ===== src/Orchestrator/Requests.antt =====
-- What a run of the pipeline records, when it asks for an order, and with which status it ends.
use leverage_agnet.Common.{
  sym, subst, ◌++◌, arith, ap, ◌∙◌, ◌⊎◌, [], ◌<◌, ◌≡◌, if◌then◌else◌, List, inr, inl, true, refl,
  some, none,
}
use leverage_agnet.Common.Number.{Number}
use leverage_agnet.Trading.{is_trade, FinalDecision, ValidationResult, RawSignal, TradeCandidate}
use leverage_agnet.Decision.Final.Rules.{decide_final_action-IsAgreed, IsAgreed}
use leverage_agnet.Execution.Types.{ExecutionRequest, ExecutionResult}
use leverage_agnet.Orchestrator.Early.{run_pipeline}
use leverage_agnet.Orchestrator.Flow.{IsCleared}
use leverage_agnet.Orchestrator.Pipeline.{request, conclude}
use leverage_agnet.Orchestrator.Progress.{IsRepeated, fresh, append_skipped-names, names}
use leverage_agnet.Orchestrator.Reach.{run_pipeline_cases}
use leverage_agnet.Orchestrator.Steps.{append_skipped, finish}
use leverage_agnet.Orchestrator.Types.{
  step_names, PipelineInput, rank_of, Session, PipelineStatus, Step, OrchestratorDeps,
  PipelineResult, completed, emergency_closed, failed,
}

completed-names :
    (steps : List Step) → names steps ≡ step_names → names (append_skipped steps []) ≡ step_names
completed-names steps h = append_skipped-names steps [] ∙ ap (λ l. l ++ fresh l []) h

-- the status that the execution engine's result asks for
abbrev pub status_of : {A : Type 0} → ExecutionResult A → PipelineStatus
status_of er =
    if er.emergency_close_failed
    then failed
    else if er.tp_sl_failed
    then emergency_closed
    else completed

-- the three ways to end: without a request, with one that failed, and with its result
pub data Ending {A W : Type 0} (e : PipelineResult A × Session A W) : Type 0 where
  unasked : rank_of e.0.status < 3 → e.0.execution_result ≡ none → e.1.requests ≡ [] → Ending e
  unanswered :
      (req : ExecutionRequest A)
      → e.0.status ≡ failed
      → e.0.execution_result ≡ none
      → IsRepeated req e.1.requests
      → Ending e
  answered :
      (req : ExecutionRequest A) (er : ExecutionResult A)
      → e.0.status ≡ status_of er
      → e.0.execution_result ≡ some er
      → IsRepeated req e.1.requests
      → Ending e

module _ {A W Snapshot Technical Signal : Type 0} (F : Number A)
    (deps : OrchestratorDeps A W Snapshot Technical Signal) (inp : PipelineInput A) where
  conclude-finish :
      (c : TradeCandidate A) (raw : RawSignal A) (v : ValidationResult A) (er : ExecutionResult A)
      (s : Session A W)
      → let e = conclude F deps inp c raw v er s in
        (e.0.steps ≡ append_skipped s.steps [])
        × (e.1.requests ≡ s.requests)
        × (e.0.status ≡ status_of er)
        × (e.0.execution_result ≡ some er)
  unfolding conclude finish
  conclude-finish c raw v er s = (ground arith, ground arith, ground arith, ground arith)

  kept :
      (c : TradeCandidate A) (raw : RawSignal A) (v : ValidationResult A) (fd : FinalDecision A)
      (er : ExecutionResult A) (s : Session A W)
      → IsRepeated (request F deps inp c raw v fd) s.requests
      → IsRepeated (request F deps inp c raw v fd) (conclude F deps inp c raw v er s).1.requests
  kept c raw v fd er s =
      subst (IsRepeated (request F deps inp c raw v fd)) (sym (conclude-finish c raw v er s).1)

  -- Whatever the agents do, a run records each of the ten steps once, in their order: those that
  -- ran, and as skipped those that it did not reach.
  pub run_pipeline-names : (w : W) → names (run_pipeline F deps inp w).0.steps ≡ step_names
  unfolding finish
  run_pipeline-names w =
      run_pipeline_cases F deps inp (λ e. names e.0.steps ≡ step_names)
        (record {
          stops = λ status k s early none all. all;
          breaks = λ c raw v fd s ok asked all. completed-names s.steps all;
          ends = λ c raw v fd er s ok asked all.
              ap names (conclude-finish c raw v er s).0 ∙ completed-names s.steps all;
        })
        w

  agreed :
      (c : TradeCandidate A) (raw : RawSignal A) (v : ValidationResult A) (fd : FinalDecision A)
      (ok : IsCleared F deps inp c raw v fd)
      → IsAgreed F c ok.review v inp.decision_config
  agreed c raw v fd ok =
      (decide_final_action-IsAgreed F c ok.review v inp.decision_config).0.0
        (subst (λ (d : FinalDecision A). is_trade d.action ≡ true) ok.is_decided ok.is_trade)

  -- the candidate and the other parts of the one request that a run may make, for each attempt
  abbrev pub IsAsked : PipelineResult A × Session A W → Type 0
  IsAsked e =
      (c : TradeCandidate A) × (raw : RawSignal A) × (v : ValidationResult A) × (fd : FinalDecision
        A)
      × (ok : IsCleared F deps inp c raw v fd) × IsAgreed F c ok.review v inp.decision_config
      × IsRepeated (request F deps inp c raw v fd) e.1.requests

  -- A run makes at most one request for an order, and hands it to the execution engine between one
  -- and four times, once for each attempt of the runner. If it does, the decision agent answered
  -- with the candidate; the risk engine answered for the candidate, in that decision's regime, with
  -- the validation in the request; the review is the reviewer's answer for the candidate or, where
  -- the configuration asks for none, the approval that stands for one; the final decision in the
  -- request is the one that `decide_final_action` makes of the candidate, that review and that
  -- validation, every layer agrees to it, the portfolio's check passed, and the signal has the
  -- candidate's figures.
  pub run_pipeline-requests :
      (w : W) → ((run_pipeline F deps inp w).1.requests ≡ []) ⊎ IsAsked (run_pipeline F deps inp w)
  unfolding finish
  run_pipeline-requests w =
      run_pipeline_cases F deps inp (λ e. (e.1.requests ≡ []) ⊎ IsAsked e)
        (record {
          stops = λ status k s early none all. inl none;
          breaks =
              λ c raw v fd s ok asked all. inr (c, raw, v, fd, ok, agreed c raw v fd ok, asked);
          ends = λ c raw v fd er s ok asked all.
              inr (c, raw, v, fd, ok, agreed c raw v fd ok, kept c raw v fd er s asked);
        })
        w

  -- A run ends in one of three ways. It stops before the execution step, with the status held,
  -- rejected or failed, no request and no result. Or it hands one request over up to four times
  -- without an answer, and it failed. Or it hands one request over up to four times and gets a
  -- result, and the status is failed if the emergency close failed, emergency-closed if only the
  -- protection failed, and completed otherwise.
  pub run_pipeline-Ending : (w : W) → Ending (run_pipeline F deps inp w)
  unfolding finish
  run_pipeline-Ending w =
      run_pipeline_cases F deps inp Ending
        (record {
          stops = λ status k s early none all. unasked early refl none;
          breaks = λ c raw v fd s ok asked all.
              unanswered (request F deps inp c raw v fd) refl refl asked;
          ends = λ c raw v fd er s ok asked all.
              let done = conclude-finish c raw v er s in
              answered (request F deps inp c raw v fd) er done.2 done.3
                (kept c raw v fd er s asked);
        })
        w
