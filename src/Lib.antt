-- ===== src/Lib.antt =====
-- Verification library of the trading agent: the path of a trade from the market data to the
-- orders, the risk engine and the safety layer before the orders, the portfolio's limits, and the
-- life of a position.
--
-- The parts and their files:
--   * Common: numbers, lists, dictionaries, Boolean tests, the calendar.
--   * Trading: the data of agents/decision/models.py and agents/risk/models.py.
--   * Redis: the client that the risk engine and the safety layer share, the keys and the stored
--     values; Memory is a server in memory, and Yields has the case rules for calls.
--   * Risk: agents/risk. Types (models.py, constants.py), KillSwitch (kill_switch.py), Sizing
--     (sizing.py), Kelly (kelly.py), Methods (sizing_engine.py), Validators (validators.py), and
--     Engine, Settings, Checks and Candidate (engine.py). Approvals has the case rules that
--     Approved, Signals and Approves apply, which are about single validations; Ends, Halts and
--     Stops are about the time that trading is stopped, Hours is about the clock, and Limits is
--     about the sizing methods.
--   * Safety: backend/app/safety. Types (types.py, constants.py), Store (the interface and the
--     in-memory store of state.py), Emergency, Disconnect, KillSwitch (both switches of
--     kill_switch.py, as one definition over a `Period`), Drawdown, Gate (gate.py) and Adapter
--     (adapter.py). Order, Losses, Failures, Peak, Resets and Disabling are about single calls or
--     runs of one kind of call, and History is about any sequence of the gate's calls.
--     Redis and Redis/Store are the Redis store of state.py; RoundTrips, Shared and Lifts are
--     about what it keeps and about the two keys that it shares with the risk engine.
--   * Decision: agents/decision. Inputs (models.py), Derivatives and Crowding
--     (derivatives_market.py), Regime (regime.py), Selector (strategy_selector.py), Exits and
--     Generator (candidate_generator.py), and Final (final_decision.py). Sides, Priorities,
--     Selections, Rewards and Candidates are about one of them each, and Chain is about the
--     selector, the generator and the risk engine together.
--   * Execution: agents/execution. Types (models.py), Tickets, Orders and Engine (engine.py); Cases
--     is the case rule that Protection, Guards and Trail apply; Gated is about the engine with the
--     safety layer's adapter as its gate.
--   * Orchestrator: agents/orchestrator. Types (models.py and the head of pipeline.py), Runner
--     (runner.py), Steps, PostTrade, Pipeline and Early (pipeline.py); Retries is about the runner,
--     and Progress, Flow and Reach lead to the case rule that Requests applies.
--   * PositionManager: agents/position_manager. Types (models.py), Lifecycle, TpSl, Dca, Liquidation
--     (emergency.py) and Engine; Life is any sequence of its calls, in which an addition is made only
--     after its check, and Books is about it; Stops and Opening are about single calls.
--   * Portfolio: agents/portfolio. Types (models.py), Exposure and Engine (calculator.py, engine.py)
--     and Score (correlation.py, scorer.py); Admission is about portfolios that grow by admitted
--     positions, and Room is about the score.
--   The modules called Tests run the definitions on concrete values.
--
-- How they interact: the pipeline calls the agents through the functions of `OrchestratorDeps`,
-- assembles the final decision with `decide_final_action`, and hands the execution engine one
-- request. The engine asks the safety gate, a function of `Services`, before it places an order.
-- After an emergency close the pipeline reports the trade to the hook, which the safety layer
-- fills. The position manager is called with the signal before the execution step.
--
-- How state is modelled: each operation takes the state and returns the next one. The safety
-- components work on any store that fills the interface `StateStore`, and their theorems on any
-- that obeys `IsLawful`, as the one in memory does; its getters return copies here, and in Python
-- the stored objects themselves. The exchange, the agents and the hook act on a type of worlds that
-- is left open; a call that raises returns `none`, or the outcome `raised`. `Run.sent` and
-- `Session.requests` record each ticket and each request that was handed over, on each attempt of
-- the runner anew: they are no part of the program.
--
-- Numbers: Python's floats and decimals are a type `A` with the operations of `Number A`, among
-- them the roundings that the program uses. A conversion between the two is the identity, and no
-- value is a NaN; what a theorem needs of the order is the hypothesis `IsOrdered`. The integers
-- and fixed-point numbers fill the interface, and the concrete runs use them. Times are
-- microseconds as natural numbers, and each reading of the clock is an argument, but within one
-- call of the risk engine or of the Redis store the readings are one. Users are natural numbers,
-- and so are leverages: a negative one, which the code does not reject, is outside of the model.
--
-- Redis: a call acts on a type of states that is left open and may raise; `IsReliable` says what
-- the theorems need of a server that answers. A text that json.dumps or isoformat makes stands as
-- the value that it encodes, a key as its kind and its user. A user's id is no text "global".
--
-- Loops: the runner's loop recurses on the attempts that are left, and all sequences of calls are
-- lists, so no fuel is needed.
--
-- Not modelled: texts of messages, log entries and metrics, which no code here reads back; the
-- logarithmic growth rate of kelly.py; the scores of the chart and the news, which the generator is
-- given; paper and shadow trading and the backtests; the web service, the database and the clients
-- of exchanges and language models.
pub mod Common
pub mod Redis
pub mod Risk
pub mod Safety
pub mod Trading
pub mod Decision
pub mod Execution
pub mod Orchestrator
pub mod PositionManager
pub mod Portfolio
