-- ===== src/Risk/Engine.antt =====
-- agents/risk/engine.py: `RiskEngine.validate`, the checks of a signal, and the calls that pass on
-- to the kill switch. The steps are functions that follow one another in the code's order.
use leverage_agnet.Redis.{of_option, ◌>>=◌, ◌>>◌, pure, Io, Client}
use leverage_agnet.Risk.KillSwitch.{
  daily_loss_limit, weekly_loss_limit, consecutive_losses, halt_trading,
}
use leverage_agnet.Risk.Sizing.{
  calculate_position_size, validate_position_size, resolve_final_leverage,
}
use leverage_agnet.Risk.Types.{OpenPosition, PositionSizingResult, AccountState, UserContext}
use leverage_agnet.Risk.Validators.{
  check_trading_hours, check_confidence, check_position_count_limit, check_rr_ratio,
  check_consecutive_losses, check_portfolio_risk, check_same_coin_position, check_stop_loss_exists,
  check_weekly_loss_limit, check_kill_switch, check_daily_loss_limit,
}
use leverage_agnet.Common.{
  ◌++◌, is_some, ◌&&◌, leb, ◌==◌, not, if◌then◌else◌, ◌∷◌, List, [], ℕ, Option, true, some, none,
}
use leverage_agnet.Common.Calendar.{Time}
use leverage_agnet.Common.Number.{Number}
use leverage_agnet.Trading.{
  Warning, Code, RawSignal, PreAction, close_existing, dca, ValidationResult, refusal, kill_switch,
  hold_signal, trading_inactive, order_001, order_002, order_003, order_004, low_confidence,
  time_restriction, weekly_loss, consec_loss, position_conflict, sizing, portfolio_risk,
  system_error, dca_entry, reverse_entry, leverage_capped, is_trade,
}

-- what the caller has loaded
pub record Losses (A : Type 0) : Type 0 where
  pub daily_loss_usdt : A
  pub weekly_loss_usdt : A
  pub weekly_limit_usdt : A
  pub consecutive_losses : ℕ

-- `ValidationResult.reject(code, reason)`
abbrev pub reject_with : {A : Type 0} → Code → ValidationResult A
reject_with code = refusal code [] (code ∷ [])

-- an exception becomes a refusal
abbrev pub caught : {A R : Type 0} → Option (ValidationResult A) × R → ValidationResult A × R
caught (none, r) = (refusal system_error [] [], r)
caught (some v, r) = (v, r)

-- the first refusal, or else the next step
abbrev pub unless :
    {A R : Type 0}
    → Option (ValidationResult A)
    → Io R (ValidationResult A)
    → Io R (ValidationResult A)
unless (some v) next = pure v
unless none next = next

abbrev pub warning_list : Option Warning → List Warning
warning_list none = []
warning_list (some w) = w ∷ []

abbrev pub position_warnings : Option PreAction → List Warning
position_warnings none = []
position_warnings (some dca) = dca_entry ∷ []
position_warnings (some close_existing) = reverse_entry ∷ []

-- The three checks on losses, which a signal and a candidate share. A failing one halts trading
-- for its own time, and hands `refuse` the code; `admit` goes on with the warning.
module _ {A R : Type 0} (F : Number A) (redis : Client A R) where
  unfoldable pub check_losses :
      UserContext A
      → A
      → A
      → Losses A
      → ℕ
      → Time
      → (Code → List Warning → ValidationResult A)
      → (List Warning → Io R (ValidationResult A))
      → Io R (ValidationResult A)
  check_losses ctx daily_limit projected losses reason now refuse admit =
      let daily = check_daily_loss_limit F losses.daily_loss_usdt daily_limit projected in
      let warnings = warning_list daily.1 in
      if not daily.0
      then (halt_trading redis ctx.user_id daily_loss_limit reason now
          >> pure (refuse order_001 warnings))
      else if not (check_weekly_loss_limit F losses.weekly_loss_usdt losses.weekly_limit_usdt)
      then (halt_trading redis ctx.user_id weekly_loss_limit reason now
          >> pure (refuse weekly_loss warnings))
      else (check_consecutive_losses redis ctx.user_id losses.consecutive_losses now >>= λ ok.
          if ok
          then admit warnings
          else if leb 5 losses.consecutive_losses
          then (halt_trading redis ctx.user_id consecutive_losses reason now
              >> pure (refuse consec_loss warnings))
          else pure (refuse consec_loss warnings))

module _ {A : Type 0} (F : Number A) where
  -- checks 1 to 6
  unfoldable pub signal_refusal : RawSignal A → UserContext A → Time → Option (ValidationResult A)
  signal_refusal signal ctx now =
      if not (is_trade signal.direction)
      then some (refusal hold_signal [] [])
      else if not ctx.is_trading_active
      then some (reject_with trading_inactive)
      else if not (check_stop_loss_exists F signal)
      then some (reject_with order_003)
      else if not (check_rr_ratio F signal).0
      then some (reject_with order_004)
      else if not (check_confidence F signal)
      then some (reject_with low_confidence)
      else if not (check_trading_hours ctx now)
      then some (reject_with time_restriction)
      else none

  -- the size of a position with the signal's stop, which check 3 has found
  unfoldable pub size_signal :
      RawSignal A → UserContext A → AccountState A → Option A → Option (PositionSizingResult A)
  size_signal signal ctx account none = none
  size_signal signal ctx account (some stop) =
      calculate_position_size F account.available_balance ctx.risk_per_trade signal.entry_price stop
        (resolve_final_leverage signal.leverage ctx.max_leverage ctx.plan) signal.take_profit
        signal.symbol

  -- checks 12 and 13 on the size, and the approval
  unfoldable pub approve_size :
      RawSignal A
      → UserContext A
      → AccountState A
      → Option PreAction
      → List Warning
      → Option (PositionSizingResult A)
      → Option (ValidationResult A)
  approve_size signal ctx account pre_action warnings none = none
  approve_size signal ctx account pre_action warnings (some size) =
      if not
        (validate_position_size F size account.available_balance signal.entry_price signal.symbol)
      then some (reject_with sizing)
      else if not (check_portfolio_risk F account size.max_loss ctx.risk_profile)
      then some (reject_with portfolio_risk)
      else some (record {
        approved = true;
        rejection_code = none;
        quantity = some size.quantity;
        final_leverage = some (resolve_final_leverage signal.leverage ctx.max_leverage ctx.plan);
        margin_required_usdt = some size.margin_used;
        max_loss_usdt = some size.max_loss;
        max_profit_usdt = some size.max_profit;
        rr_ratio = some (check_rr_ratio F signal).1;
        pre_action = pre_action;
        warnings = warnings;
        failed_checks = [];
      })

  abbrev pub leverage_warnings : RawSignal A → UserContext A → List Warning
  leverage_warnings signal ctx =
      if resolve_final_leverage signal.leverage ctx.max_leverage ctx.plan == signal.leverage
      then []
      else leverage_capped ∷ []

  -- checks 10 to 13
  unfoldable pub check_position :
      RawSignal A
      → UserContext A
      → AccountState A
      → ℕ
      → Option OpenPosition
      → List Warning
      → Option (ValidationResult A)
  check_position signal ctx account open_count same_coin warnings =
      let coin = check_same_coin_position signal.direction same_coin in
      if not (check_position_count_limit open_count ctx) && not (is_some same_coin)
      then some (reject_with order_002)
      else if not coin.0
      then some (reject_with position_conflict)
      else approve_size signal ctx account coin.1
          (warnings ++ position_warnings coin.1 ++ leverage_warnings signal ctx)
          (size_signal signal ctx account signal.stop_loss)

module _ {A R : Type 0} (F : Number A) (redis : Client A R) where
  unfoldable pub validate_steps :
      RawSignal A
      → UserContext A
      → AccountState A
      → Losses A
      → ℕ
      → Option OpenPosition
      → ℕ
      → Time
      → Io R (ValidationResult A)
  validate_steps signal ctx account losses open_count same_coin reason now =
      check_kill_switch redis ctx.user_id now >>= λ ok.
      if not ok
      then pure (reject_with kill_switch)
      else unless (signal_refusal F signal ctx now) (
          check_losses F redis ctx (F.mul account.total_balance ctx.daily_loss_limit_pct)
            (F.mul account.total_balance ctx.risk_per_trade) losses reason now
            (λ code _. reject_with code)
            (λ warnings.
              of_option (check_position F signal ctx account open_count same_coin warnings)))

  unfoldable pub validate :
      RawSignal A
      → UserContext A
      → AccountState A
      → Losses A
      → ℕ
      → Option OpenPosition
      → ℕ
      → Time
      → R
      → ValidationResult A × R
  validate signal ctx account losses open_count same_coin reason now r =
      caught (validate_steps signal ctx account losses open_count same_coin reason now r)
