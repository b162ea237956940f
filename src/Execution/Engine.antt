-- ===== src/Execution/Engine.antt =====
-- agents/execution/engine.py: `ExecutionEngine.execute`.
use leverage_agnet.Common.{Bool, true, false, not, ◌&&◌, Option, none, some, if◌then◌else◌}
use leverage_agnet.Common.Number.{Number}
use leverage_agnet.Trading.{
  RawSignal, TradeCandidate, ValidationResult, system_error, shadow_strategy_forbidden,
}
use leverage_agnet.Execution.Orders.{pass_gate}
use leverage_agnet.Execution.Tickets.{
  Safety, Order, of_raw, of_candidate, safe, unsafe, local_execution_safety,
}
use leverage_agnet.Execution.Types.{
  Mode, paper, StrategyVersion, fast_exit_v2, other_version, ExecutionRequest, ExecutionResult,
  Services, Run, refused,
}

-- `ExecutionEngine.__init__`: `none` is the refused combination
pub record Config : Type 0 where
  pub live_trading_enabled : Bool
  pub mode : Mode

unfoldable pub new_config : Bool → Mode → Option Config
new_config true paper = none
new_config live mode = some (record { live_trading_enabled = live; mode = mode })

abbrev pub is_fast_exit : Option StrategyVersion → Bool
is_fast_exit (some fast_exit_v2) = true
is_fast_exit (some other_version) = false
is_fast_exit none = false

module _ {A W : Type 0} (F : Number A) (svc : Services A W) (config : Config) where
  -- from the local checks on
  unfoldable pub after_checks :
      ExecutionRequest A
      → ValidationResult A
      → Order A
      → Run A W
      → Safety A
      → ExecutionResult A × Run A W
  after_checks req v o r (unsafe code) = (refused config.mode code (some v), r)
  after_checks req v o r (safe c) =
      if not config.live_trading_enabled
      then (record (refused paper none (some v)) { approved = true }, r)
      else pass_gate svc req.user_id config.mode v o c r

  -- from a validation on
  unfoldable pub execute_validated :
      ExecutionRequest A → ValidationResult A → Order A → Run A W → ExecutionResult A × Run A W
  execute_validated req v o r =
      if not v.approved
      then (refused config.mode v.rejection_code (some v), r)
      else after_checks req v o r (local_execution_safety F req v o)

  -- `req.candidate or req.signal`
  abbrev pub order_of : RawSignal A → Option (TradeCandidate A) → Order A
  order_of s none = of_raw s
  order_of s (some c) = of_candidate c

  -- the legacy flow: the answer of `validate`, `none` if it raised
  unfoldable pub execute_legacy :
      ExecutionRequest A → Run A W → Option (ValidationResult A) → ExecutionResult A × Run A W
  execute_legacy req r none = (refused config.mode (some system_error) none, r)
  execute_legacy req r (some v) = execute_validated req v (of_raw req.signal) r

  -- STEP 1: the validation that came with the request, or the validator's
  unfoldable pub execute_with :
      ExecutionRequest A → Run A W → Option (ValidationResult A) → ExecutionResult A × Run A W
  execute_with req r (some v) = execute_validated req v (order_of req.signal req.candidate) r
  execute_with req r none =
      let (validation, w) = svc.validate req r.world in
      execute_legacy req (record r { world = w }) validation

  unfoldable pub execute : ExecutionRequest A → Run A W → ExecutionResult A × Run A W
  execute req r =
      if config.live_trading_enabled && is_fast_exit req.strategy_version
      then (refused config.mode (some shadow_strategy_forbidden) none, r)
      else execute_with req r req.approved_validation
