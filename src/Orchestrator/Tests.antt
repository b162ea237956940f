-- ===== src/Orchestrator/Tests.antt =====
-- Runs of the pipeline with agents that all answer, on the trade of `Execution.Tests`. The world is
-- the number of calls of the execution engine, whose first call times out.
use leverage_agnet.Common.{zero, suc, ℕ, ◌⊎◌, ◌≡◌, [], refl, true, false, some, none}
use leverage_agnet.Common.Integer.{ℤ, pos, whole}
use leverage_agnet.Trading.{trend_up}
use leverage_agnet.Decision.Final.{
  min_expected_profit, passes_review, final_action, decide_final_action,
}
use leverage_agnet.Decision.Tests.{config, consent}
use leverage_agnet.Execution.Tests.{buy_btc, approval}
use leverage_agnet.Execution.Types.{ExecutionResult, live}
use leverage_agnet.Orchestrator.Early.{
  after_candidate, run_strategy, run_technical, after_market, run_pipeline, after_decision,
  run_decision,
}
use leverage_agnet.Orchestrator.Pipeline.{
  conclude, after_execution, run_execution, after_position, run_position, after_portfolio,
  run_portfolio, after_final, run_final, after_risk, run_risk, after_review, run_review,
}
use leverage_agnet.Orchestrator.PostTrade.{fire_order_filled_alert}
use leverage_agnet.Orchestrator.Requests.{
  run_pipeline-requests, IsAsked, run_pipeline-Ending, Ending,
}
use leverage_agnet.Orchestrator.Retries.{run-Ends, IsExhausted, IsAnswered}
use leverage_agnet.Orchestrator.Runner.{
  mark_success, Outcome, attempts, timed_out, finished, raised, run,
}
use leverage_agnet.Orchestrator.Steps.{run_step, finish}
use leverage_agnet.Orchestrator.Types.{OrchestratorDeps, PipelineInput, completed}

abbrev bought : ExecutionResult ℤ
bought = record {
  approved = true;
  executed = true;
  mode = live;
  rejection_code = none;
  validation = some approval;
  entry_order = none;
  tp_order = none;
  sl_order = none;
  tp_sl_failed = false;
  emergency_close_order = none;
  emergency_close_failed = false;
}

abbrev second_time : ℕ → Outcome (ExecutionResult ℤ) × ℕ
second_time zero = (timed_out, 1)
second_time (suc n) = (finished bought, suc (suc n))

abbrev agents : OrchestratorDeps ℤ ℕ ℕ ℕ ℕ
agents = record {
  get_snapshot = λ coin w. (finished 1, w);
  technical = λ snap symbol w. (raised, w);
  neutral_technical = 0;
  strategy = λ snap ta w. (finished 1, w);
  neutral_signal = 0;
  decision = λ inp snap ta signal w.
      (finished (record { candidate = some buy_btc; confidence = pos 1; regime = trend_up }), w);
  review = λ d c w. (finished consent, w);
  validate_candidate = λ c inp regime snap w. (finished approval, w);
  final_thread = λ w. (finished tt, w);
  can_add_position = λ inp risk w. (finished true, w);
  open_position = λ u raw v w. (finished tt, w);
  execute = λ req w. second_time w;
  post_trade_hook = none;
  alert_dispatcher = none;
}

abbrev input : PipelineInput ℤ
input = record {
  coin = "BTC";
  user_id = 1;
  daily_loss_usdt = pos 0;
  weekly_loss_usdt = pos 0;
  decision_config = config;
}

second_attempt_succeeds : (run 1 second_time 3 0).0 ≡ mark_success 2 1 bought
unfolding run attempts
second_attempt_succeeds = refl

run-Ends_example :
    let e = run 1 second_time 3 0 in
    IsAnswered 1 second_time 3 0 0 e ⊎ IsExhausted 1 second_time 3 0 0 e
run-Ends_example = run-Ends 1 second_time 3 0

run_pipeline-requests_example :
    let e = run_pipeline whole agents input 0 in (e.1.requests ≡ []) ⊎ IsAsked whole agents input e
run_pipeline-requests_example = run_pipeline-requests whole agents input 0

run_pipeline-Ending_example : Ending (run_pipeline whole agents input 0)
run_pipeline-Ending_example = run_pipeline-Ending whole agents input 0

-- every agent but the technical one succeeds: the run completes with one request
all_agents_complete :
    let e = run_pipeline whole agents input 0 in (e.0.status ≡ completed) × (e.1.world ≡ 2)
unfolding run_pipeline after_market run_technical run_strategy run_decision after_decision
    after_candidate run_review after_review run_risk after_risk run_final after_final run_portfolio
    after_portfolio run_position after_position run_execution after_execution conclude finish
    run_step run attempts decide_final_action final_action passes_review min_expected_profit
    fire_order_filled_alert
all_agents_complete = (refl, refl)
