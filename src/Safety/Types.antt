-- ===== src/Safety/Types.antt =====
-- backend/app/safety/types.py and constants.py.
use leverage_agnet.Common.{ℕ, Bool, true, false, Option, none, some}
use leverage_agnet.Common.Calendar.{Time}
use leverage_agnet.Common.Number
use leverage_agnet.Common.Number.{Number}

-- Users are only compared.
abbrev pub UserId : Type 0
UserId = ℕ

pub data HaltReason : Type 0 where
  live_trading_disabled daily_loss_limit weekly_loss_limit drawdown_protection : HaltReason
  emergency_shutdown consecutive_api_failures : HaltReason

pub data AlertLevel : Type 0 where
  info warning critical : AlertLevel

pub record SafetyConfig (A : Type 0) : Type 0 where
  pub live_trading_enabled : Bool
  pub daily_loss_limit_pct : A
  pub weekly_loss_limit_pct : A
  pub drawdown_warning_pct : A
  pub drawdown_halt_pct : A
  pub api_failure_halt_threshold : ℕ
  pub api_failure_halt_minutes : ℕ

pub record SafetyCheckResult : Type 0 where
  pub allowed : Bool
  pub halt_reason : Option HaltReason
  pub alert_level : AlertLevel

pub record KillSwitchState (A : Type 0) : Type 0 where
  pub user_id : UserId
  pub is_halted : Bool
  pub halt_reason : Option HaltReason
  pub halt_until : Option Time
  pub current_loss_usdt : A
  pub period_start_balance : A

pub record DisconnectState : Type 0 where
  pub consecutive_failures : ℕ
  pub last_failure_at : Option Time
  pub halt_until : Option Time
  pub is_halted : Bool

-- who activated an emergency stop
pub data Activator : Type 0 where
  user system : Activator

-- The reason is a text that is kept and never read: any number stands for it.
pub record EmergencyState : Type 0 where
  pub is_active : Bool
  pub activated_at : Option Time
  pub activated_by : Option Activator
  pub reason : ℕ
  pub requires_manual_resume : Bool

pub record DrawdownState (A : Type 0) : Type 0 where
  pub peak_balance : A
  pub current_balance : A
  pub is_halted : Bool
  pub warning_sent : Bool

pub record UserHaltStatus : Type 0 where
  pub is_halted : Bool
  pub halt_reason : Option HaltReason
  pub halt_until : Option Time

-- `SafetyCheckResult(allowed=True, message="OK")`
abbrev pub allow : SafetyCheckResult
allow = record { allowed = true; halt_reason = none; alert_level = info }

abbrev pub allow_with_warning : SafetyCheckResult
allow_with_warning = record { allowed = true; halt_reason = none; alert_level = warning }

abbrev pub block : HaltReason → AlertLevel → SafetyCheckResult
block r l = record { allowed = false; halt_reason = some r; alert_level = l }

-- `DisconnectState()`
abbrev pub new_disconnect : DisconnectState
new_disconnect = record {
  consecutive_failures = 0;
  last_failure_at = none;
  halt_until = none;
  is_halted = false;
}

-- `EmergencyState()`; the empty reason is 0
abbrev pub new_emergency : EmergencyState
new_emergency = record {
  is_active = false;
  activated_at = none;
  activated_by = none;
  reason = 0;
  requires_manual_resume = true;
}

module _ {A : Type 0} (F : Number A) where
  -- `KillSwitchState(user_id=user_id)`
  abbrev pub new_kill_switch : UserId → KillSwitchState A
  new_kill_switch u = record {
    user_id = u;
    is_halted = false;
    halt_reason = none;
    halt_until = none;
    current_loss_usdt = Number.nil F;
    period_start_balance = Number.nil F;
  }

  -- `DrawdownState()`
  abbrev pub new_drawdown : DrawdownState A
  new_drawdown = record {
    peak_balance = Number.nil F;
    current_balance = Number.nil F;
    is_halted = false;
    warning_sent = false;
  }

  abbrev pub daily_loss_warning_pct : A
  daily_loss_warning_pct = F.decimal 50 2

  abbrev pub daily_loss_caution_pct : A
  daily_loss_caution_pct = F.decimal 80 2

  abbrev pub daily_loss_halt_pct : A
  daily_loss_halt_pct = F.decimal 100 2

  abbrev pub weekly_loss_warning_pct : A
  weekly_loss_warning_pct = F.decimal 50 2

  abbrev pub weekly_loss_caution_pct : A
  weekly_loss_caution_pct = F.decimal 75 2

  abbrev pub weekly_loss_halt_pct : A
  weekly_loss_halt_pct = F.decimal 100 2

  -- `SafetyConfig()`: live trading is off, and the limits are those of the moderate profile
  abbrev pub default_config : SafetyConfig A
  default_config = record {
    live_trading_enabled = false;
    daily_loss_limit_pct = F.decimal 3 2;
    weekly_loss_limit_pct = F.decimal 10 2;
    drawdown_warning_pct = F.decimal 10 2;
    drawdown_halt_pct = F.decimal 20 2;
    api_failure_halt_threshold = 3;
    api_failure_halt_minutes = 30;
  }
