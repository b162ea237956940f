-- ===== src/Orchestrator/Types.antt =====
-- agents/orchestrator/models.py, and the protocols and settings at the head of
-- agents/orchestrator/pipeline.py. What the agents exchange and no step reads has a type of its
-- own that the model leaves open: a market snapshot, a technical result and a strategy's signal.
use leverage_agnet.Common.{Bool, [], String, ◌∷◌, ℕ, Option, List}
use leverage_agnet.Trading.{
  RawSignal, ValidationResult, ReviewResult, MarketRegime, TradeCandidate, Action,
}
use leverage_agnet.Safety.Types.{UserId}
use leverage_agnet.Decision.Final.{Config}
use leverage_agnet.Execution.Types.{ExecutionResult, ExecutionRequest}
use leverage_agnet.Orchestrator.Runner.{Outcome, AgentStatus}

-- `_STEP_NAMES`
pub data StepName : Type 0 where
  market_data technical strategy decision ai_review risk final_decision portfolio : StepName
  position_manager execution : StepName

abbrev pub step_names : List StepName
step_names =
    market_data ∷ technical ∷ strategy ∷ decision ∷ ai_review ∷ risk ∷ final_decision ∷ portfolio
    ∷ position_manager ∷ execution ∷ []

-- `_STEP_RETRIES`
abbrev pub step_retries : StepName → ℕ
step_retries market_data = 2
step_retries technical = 1
step_retries strategy = 1
step_retries ai_review = 1
step_retries execution = 3
step_retries _ = 0

-- Python's `==` on the names
abbrev pub rank : StepName → ℕ
rank market_data = 0
rank technical = 1
rank strategy = 2
rank decision = 3
rank ai_review = 4
rank risk = 5
rank final_decision = 6
rank portfolio = 7
rank position_manager = 8
rank execution = 9

-- the entry that a step leaves in `steps`
pub record Step : Type 0 where
  pub name : StepName
  pub status : AgentStatus
  pub attempt : ℕ

-- `PipelineStatus` of a run that is over
pub data PipelineStatus : Type 0 where
  completed hold rejected failed emergency_closed : PipelineStatus

-- the statuses that end a run before an order is executed come first
abbrev pub rank_of : PipelineStatus → ℕ
rank_of hold = 0
rank_of rejected = 1
rank_of failed = 2
rank_of completed = 3
rank_of emergency_closed = 4

-- `PipelineInput`, as far as the run reads it itself: the agents are given the rest. The price that
-- the run turns into a decimal for the strategy agent is taken to be one.
pub record PipelineInput (A : Type 0) : Type 0 where
  pub coin : String
  pub user_id : UserId
  pub daily_loss_usdt : A
  pub weekly_loss_usdt : A
  pub decision_config : Option (Config A)

-- `DecisionResult`, less the scores, which only the reviewer and the log read
pub record DecisionResult (A : Type 0) : Type 0 where
  pub candidate : Option (TradeCandidate A)
  pub confidence : A
  pub regime : MarketRegime

pub record PipelineResult (A : Type 0) : Type 0 where
  pub status : PipelineStatus
  pub steps : List Step
  pub execution_result : Option (ExecutionResult A)

-- `PostTradeEvent`, less the coin's name
pub record PostTradeEvent (A : Type 0) : Type 0 where
  pub user_id : UserId
  pub direction : Action
  pub entry_price : A
  pub quantity : A
  pub stop_loss : Option A
  pub max_loss_usdt : A
  pub period_start_balance : A
  pub week_start_balance : A
  pub current_balance : A
  pub realized_pnl_usdt : Option A

-- `OrderFilledEvent` and `EmergencyClosedEvent`, less the symbol
pub data Alert (A : Type 0) : Type 0 where
  order_filled :
      (direction : Action) (fill_price quantity : A) (leverage : ℕ)
      (take_profit stop_loss : Option A)
      → Alert A
  emergency : (direction : Action) (entry_price exit_price : A) → Alert A

-- `OrchestratorDeps`: each agent takes its input and the world outside to an outcome and the next
-- world. `final_thread` is the thread that runs `decide_final_action`. The hook and the dispatcher
-- never fail a run, since the pipeline catches what they raise.
pub record OrchestratorDeps (A W Snapshot Technical Signal : Type 0) : Type 0 where
  pub get_snapshot : String → W → Outcome Snapshot × W
  pub technical : Snapshot → String → W → Outcome Technical × W
  pub neutral_technical : Technical
  pub strategy : Snapshot → Technical → W → Outcome Signal × W
  pub neutral_signal : Signal
  pub decision :
      PipelineInput A → Snapshot → Technical → Signal → W → Outcome (DecisionResult A) × W
  pub review : DecisionResult A → TradeCandidate A → W → Outcome (ReviewResult A) × W
  pub validate_candidate :
      TradeCandidate A
      → PipelineInput A
      → MarketRegime
      → Snapshot
      → W
      → Outcome (ValidationResult A) × W
  pub final_thread : W → Outcome Unit × W
  pub can_add_position : PipelineInput A → A → W → Outcome Bool × W
  pub open_position : UserId → RawSignal A → ValidationResult A → W → Outcome Unit × W
  pub execute : ExecutionRequest A → W → Outcome (ExecutionResult A) × W
  pub post_trade_hook : Option (PostTradeEvent A → W → W)
  pub alert_dispatcher : Option (Alert A → W → W)

-- The world and `steps`. The requests, one for each call of the execution engine, are no part of
-- the program: the theorems read them.
pub record Session (A W : Type 0) : Type 0 where
  pub world : W
  pub steps : List Step
  pub requests : List (ExecutionRequest A)
