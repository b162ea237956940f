-- ===== src/Risk/Candidate.antt =====
-- agents/risk/engine.py: `RiskEngine.validate_candidate`, and the calls that pass on to the kill
-- switch.
use Prim.Native.Nat.{ℕ}
use leverage_agnet.Redis.{of_option, ◌>>=◌, pure, Io, Client}
use leverage_agnet.Risk.Checks.{outcome_tests, position_tests, projected_loss, entry_tests}
use leverage_agnet.Risk.Engine.{caught, check_losses, Losses}
use leverage_agnet.Risk.KillSwitch.{emergency_stop, resume_trading, manual}
use leverage_agnet.Risk.Settings.{first_refusal, RiskConfig, FundingContext}
use leverage_agnet.Risk.Types.{AccountState, OpenPosition, UserContext}
use leverage_agnet.Risk.Validators.{check_kill_switch}
use leverage_agnet.Common.{◌++◌, ◌==◌, not, if◌then◌else◌, ◌∷◌, List, Option, true, some, none, []}
use leverage_agnet.Common.Calendar.{Time}
use leverage_agnet.Common.Number
use leverage_agnet.Common.Number.{Number}
use leverage_agnet.Trading.{
  TradeCandidate, MarketRegime, Code, Warning, ValidationResult, refusal, kill_switch,
}
use leverage_agnet.Safety.Types.{UserId}

-- `_reject_candidate`
abbrev pub reject_candidate : {A : Type 0} → Code → List Warning → ValidationResult A
reject_candidate code warnings = refusal code warnings (code ∷ [])

abbrev pub unless_code :
    {A R : Type 0}
    → Option Code
    → List Warning
    → Io R (ValidationResult A)
    → Io R (ValidationResult A)
unless_code (some code) warnings next = pure (reject_candidate code warnings)
unless_code none warnings next = next

module _ {A : Type 0} (F : Number A) where
  -- the approval; a leverage of 0 raises
  unfoldable pub approve_candidate : TradeCandidate A → List Warning → Option (ValidationResult A)
  approve_candidate c warnings =
      if c.leverage == 0
      then none
      else some (record {
        approved = true;
        rejection_code = none;
        quantity =
            if F.ltb (Number.nil F) c.entry_price
            then some (F.div c.notional_size c.entry_price)
            else none;
        final_leverage = some c.leverage;
        margin_required_usdt = some (F.div c.notional_size (F.decimal c.leverage 0));
        max_loss_usdt = c.expected_net_loss;
        max_profit_usdt = c.expected_net_profit;
        rr_ratio = some c.actual_rr;
        pre_action = none;
        warnings = warnings;
        failed_checks = [];
      })

module _ {A R : Type 0} (F : Number A) (redis : Client A R) where
  unfoldable pub candidate_steps :
      TradeCandidate A
      → UserContext A
      → AccountState A
      → Losses A
      → ℕ
      → Option OpenPosition
      → Option MarketRegime
      → Option (FundingContext A)
      → Option (RiskConfig A)
      → ℕ
      → Time
      → Io R (ValidationResult A)
  candidate_steps c ctx account losses open_count same_coin regime funding config reason now =
      check_kill_switch redis ctx.user_id now >>= λ ok.
      if not ok
      then pure (reject_candidate kill_switch [])
      else unless_code (first_refusal (entry_tests F c ctx config)) [] (
          check_losses F redis ctx (F.mul account.total_balance ctx.daily_loss_limit_pct)
            (projected_loss F c ctx account) losses reason now reject_candidate
            (λ warnings.
              unless_code
                (first_refusal (
                  position_tests F ctx open_count same_coin
                  ++ outcome_tests F c ctx account regime funding config))
                warnings (of_option (approve_candidate F c warnings))))

  unfoldable pub validate_candidate :
      TradeCandidate A
      → UserContext A
      → AccountState A
      → Losses A
      → ℕ
      → Option OpenPosition
      → Option MarketRegime
      → Option (FundingContext A)
      → Option (RiskConfig A)
      → ℕ
      → Time
      → R
      → ValidationResult A × R
  validate_candidate c ctx account losses open_count same_coin regime funding config reason now r =
      caught (
        candidate_steps c ctx account losses open_count same_coin regime funding config reason now
          r)

module _ {A R : Type 0} (redis : Client A R) where
  -- the calls that pass on to the kill switch
  unfoldable pub activate_kill_switch : UserId → ℕ → Time → Io R (Unit {0})
  activate_kill_switch user_id reason now =
      emergency_stop redis user_id reason manual now >>= λ _. pure tt

  unfoldable pub deactivate_kill_switch : UserId → Time → Io R (Unit {0})
  deactivate_kill_switch user_id now = resume_trading redis user_id now
