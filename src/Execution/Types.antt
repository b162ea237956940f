-- ===== src/Execution/Types.antt =====
-- agents/execution/models.py. What the engine calls is a record of functions on the state of the
-- world outside: a call returns `none` where the source's call raises.
use leverage_agnet.Common.{String, Bool, false, Option, none, List}
use leverage_agnet.Trading.{Code, RawSignal, TradeCandidate, ValidationResult, FinalDecision}
use leverage_agnet.Safety.Types.{UserId}

pub data Side : Type 0 where
  buy sell : Side

pub data OrderType : Type 0 where
  market take_profit_market stop_market : OrderType

pub data Purpose : Type 0 where
  entry take_profit stop_loss emergency_close : Purpose

pub data Mode : Type 0 where
  paper testnet live : Mode

-- the versions that the engine tells apart
pub data StrategyVersion : Type 0 where
  fast_exit_v2 other_version : StrategyVersion

pub record OrderTicket (A : Type 0) : Type 0 where
  pub symbol : String
  pub side : Side
  pub order_type : OrderType
  pub quantity : A
  pub price : A
  pub reduce_only : Bool
  pub purpose : Purpose

pub record FilledOrder (A : Type 0) : Type 0 where
  pub purpose : Purpose
  pub side : Side
  pub quantity : A
  pub avg_fill_price : A

pub record SafetyDecision : Type 0 where
  pub allowed : Bool
  pub rejection_code : Option Code

-- the user and the figures of the account go to the validator as they are
pub record ExecutionRequest (A : Type 0) : Type 0 where
  pub signal : RawSignal A
  pub user_id : UserId
  pub candidate : Option (TradeCandidate A)
  pub final_decision : Option (FinalDecision A)
  pub approved_validation : Option (ValidationResult A)
  pub strategy_version : Option StrategyVersion

pub record ExecutionResult (A : Type 0) : Type 0 where
  pub approved : Bool
  pub executed : Bool
  pub mode : Mode
  pub rejection_code : Option Code
  pub validation : Option (ValidationResult A)
  pub entry_order : Option (FilledOrder A)
  pub tp_order : Option (FilledOrder A)
  pub sl_order : Option (FilledOrder A)
  pub tp_sl_failed : Bool
  pub emergency_close_order : Option (FilledOrder A)
  pub emergency_close_failed : Bool

-- the risk validator, the exchange's gateway, and the safety gate, which may be absent
pub record Services (A W : Type 0) : Type 0 where
  pub validate : ExecutionRequest A → W → Option (ValidationResult A) × W
  pub place_order : OrderTicket A → W → Option (FilledOrder A) × W
  pub safety_gate : Option (UserId → W → Option SafetyDecision × W)

-- The world, and the tickets handed to the gateway so far, the newest first. The list is no part
-- of the program: the theorems read it.
pub record Run (A W : Type 0) : Type 0 where
  pub world : W
  pub sent : List (OrderTicket A)

-- `ExecutionResult(approved=False, executed=False, …)`
abbrev pub refused :
    {A : Type 0} → Mode → Option Code → Option (ValidationResult A) → ExecutionResult A
refused mode code validation = record {
  approved = false;
  executed = false;
  mode = mode;
  rejection_code = code;
  validation = validation;
  entry_order = none;
  tp_order = none;
  sl_order = none;
  tp_sl_failed = false;
  emergency_close_order = none;
  emergency_close_failed = false;
}
