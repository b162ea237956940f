-- ===== src/Safety/Redis.antt =====
-- backend/app/safety/state.py: the dicts that `RedisSafetyStateStore` stores.
use leverage_agnet.Redis.{Field, field, null, flag, count, number, word, note, iso}
use text.Mathlib.Text.{◌==◌ as ◌=text=◌}
use leverage_agnet.Common.{
  ℕ, if◌then◌else◌, Bool, [], Option, ◌∷◌, List, String, false, true, some, none,
}
use leverage_agnet.Common.Calendar.{Time}
use leverage_agnet.Common.Number
use leverage_agnet.Common.Number.{Number}
use leverage_agnet.Safety.Types.{
  HaltReason, KillSwitchState, DisconnectState, EmergencyState, DrawdownState, Activator, UserId,
  live_trading_disabled, daily_loss_limit, weekly_loss_limit, drawdown_protection,
  emergency_shutdown, consecutive_api_failures, user, system,
}
pub mod Store
pub mod RoundTrips
pub mod Shared
pub mod Lifts
mod Tests

abbrev pub Fields : Type 0 → Type 0
Fields A = List (String × Field A)

-- `reason.value`
abbrev pub reason_text : HaltReason → String
reason_text live_trading_disabled = "LIVE_TRADING_DISABLED"
reason_text daily_loss_limit = "DAILY_LOSS_LIMIT"
reason_text weekly_loss_limit = "WEEKLY_LOSS_LIMIT"
reason_text drawdown_protection = "DRAWDOWN_PROTECTION"
reason_text emergency_shutdown = "EMERGENCY_SHUTDOWN"
reason_text consecutive_api_failures = "CONSECUTIVE_API_FAILURES"

-- `HaltReason(text)`: `none` is a ValueError
abbrev pub reason_of : String → Option HaltReason
reason_of t =
    if t =text= "LIVE_TRADING_DISABLED"
    then some live_trading_disabled
    else if t =text= "DAILY_LOSS_LIMIT"
    then some daily_loss_limit
    else if t =text= "WEEKLY_LOSS_LIMIT"
    then some weekly_loss_limit
    else if t =text= "DRAWDOWN_PROTECTION"
    then some drawdown_protection
    else if t =text= "EMERGENCY_SHUTDOWN"
    then some emergency_shutdown
    else if t =text= "CONSECUTIVE_API_FAILURES"
    then some consecutive_api_failures
    else none

abbrev pub activator_text : Activator → String
activator_text user = "user"
activator_text system = "system"

abbrev pub activator_of : String → Option Activator
activator_of t =
    if t =text= "user" then some user else if t =text= "system" then some system else none

module _ {A : Type 0} where
  -- `x.isoformat() if x else None`
  abbrev pub time_field : Option Time → Field A
  time_field none = null
  time_field (some t) = iso t

  abbrev pub reason_field : Option HaltReason → Field A
  reason_field none = null
  reason_field (some r) = word (reason_text r)

  abbrev pub activator_field : Option Activator → Field A
  activator_field none = null
  activator_field (some a) = word (activator_text a)

  -- `data.get(name, default)`, for the kinds of fields that the code writes under the name
  abbrev pub flag_or : Option (Field A) → Bool → Bool
  flag_or (some (flag b)) d = b
  flag_or _ d = d

  abbrev pub number_or : Option (Field A) → A → A
  number_or (some (number a)) d = a
  number_or _ d = d

  abbrev pub count_or : Option (Field A) → ℕ → ℕ
  count_or (some (count n)) d = n
  count_or _ d = d

  abbrev pub note_or : Option (Field A) → ℕ → ℕ
  note_or (some (note n)) d = n
  note_or _ d = d

  -- a time, where any other text is passed over
  abbrev pub time_of : Option (Field A) → Option Time
  time_of (some (iso t)) = some t
  time_of _ = none

  abbrev pub halt_reason_of : Option (Field A) → Option HaltReason
  halt_reason_of (some (word w)) = reason_of w
  halt_reason_of _ = none

  abbrev pub activated_by_of : Option (Field A) → Option Activator
  activated_by_of (some (word w)) = activator_of w
  activated_by_of _ = none

  -- a time, where any other text raises
  abbrev pub parsed_time : Option (Field A) → Option (Option Time)
  parsed_time (some (iso t)) = some (some t)
  parsed_time (some (word w)) = none
  parsed_time _ = some none

  unfoldable pub ks_to_json : KillSwitchState A → Fields A
  ks_to_json state =
      ("is_halted", flag state.is_halted)
      ∷ ("halt_reason", reason_field state.halt_reason)
      ∷ ("halt_until", time_field state.halt_until)
      ∷ ("current_loss_usdt", number state.current_loss_usdt)
      ∷ ("period_start_balance", number state.period_start_balance)
      ∷ []

  unfoldable pub disconnect_to_json : DisconnectState → Fields A
  disconnect_to_json s =
      ("consecutive_failures", count s.consecutive_failures)
      ∷ ("last_failure_at", time_field s.last_failure_at)
      ∷ ("halt_until", time_field s.halt_until)
      ∷ ("is_halted", flag s.is_halted)
      ∷ []

  abbrev disconnect_with :
      Fields A → Option (Option Time) → Option (Option Time) → Option DisconnectState
  disconnect_with stored none until = none
  disconnect_with stored (some last) none = none
  disconnect_with stored (some last) (some until) = some (record {
    consecutive_failures = count_or (field "consecutive_failures" stored) 0;
    last_failure_at = last;
    halt_until = until;
    is_halted = flag_or (field "is_halted" stored) false;
  })

  -- `none` is a ValueError
  unfoldable pub disconnect_from_json : Fields A → Option DisconnectState
  disconnect_from_json stored =
      disconnect_with stored (parsed_time (field "last_failure_at" stored))
        (parsed_time (field "halt_until" stored))

  unfoldable pub emergency_to_json : EmergencyState → Fields A
  emergency_to_json s =
      ("is_active", flag s.is_active)
      ∷ ("activated_at", time_field s.activated_at)
      ∷ ("activated_by", activator_field s.activated_by)
      ∷ ("reason", note s.reason)
      ∷ ("requires_manual_resume", flag s.requires_manual_resume)
      ∷ []

  abbrev emergency_with : Fields A → Option (Option Time) → Option EmergencyState
  emergency_with stored none = none
  emergency_with stored (some activated) = some (record {
    is_active = flag_or (field "is_active" stored) false;
    activated_at = activated;
    activated_by = activated_by_of (field "activated_by" stored);
    reason = note_or (field "reason" stored) 0;
    requires_manual_resume = flag_or (field "requires_manual_resume" stored) true;
  })

  unfoldable pub emergency_from_json : Fields A → Option EmergencyState
  emergency_from_json stored = emergency_with stored (parsed_time (field "activated_at" stored))

  unfoldable pub drawdown_to_json : DrawdownState A → Fields A
  drawdown_to_json s =
      ("peak_balance", number s.peak_balance)
      ∷ ("current_balance", number s.current_balance)
      ∷ ("is_halted", flag s.is_halted)
      ∷ ("warning_sent", flag s.warning_sent)
      ∷ []

module _ {A : Type 0} (F : Number A) where
  unfoldable pub ks_from_json : UserId → Fields A → KillSwitchState A
  ks_from_json user_id stored = record {
    user_id = user_id;
    is_halted = flag_or (field "is_halted" stored) false;
    halt_reason = halt_reason_of (field "halt_reason" stored);
    halt_until = time_of (field "halt_until" stored);
    current_loss_usdt = number_or (field "current_loss_usdt" stored) (Number.nil F);
    period_start_balance = number_or (field "period_start_balance" stored) (Number.nil F);
  }

  -- the state that a halt written by the risk engine stands for
  unfoldable pub ks_from_risk_halt : UserId → Fields A → HaltReason → KillSwitchState A
  ks_from_risk_halt user_id stored reason = record {
    user_id = user_id;
    is_halted = true;
    halt_reason = some reason;
    halt_until = time_of (field "until" stored);
    current_loss_usdt = Number.nil F;
    period_start_balance = Number.nil F;
  }

  unfoldable pub drawdown_from_json : Fields A → DrawdownState A
  drawdown_from_json stored = record {
    peak_balance = number_or (field "peak_balance" stored) (Number.nil F);
    current_balance = number_or (field "current_balance" stored) (Number.nil F);
    is_halted = flag_or (field "is_halted" stored) false;
    warning_sent = flag_or (field "warning_sent" stored) false;
  }
