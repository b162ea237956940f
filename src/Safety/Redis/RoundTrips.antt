-- ===== src/Safety/Redis/RoundTrips.antt =====
-- What is stored as a dict is read back.
use leverage_agnet.Common.{◌≡◌, Option, refl, some, none}
use leverage_agnet.Safety.Redis.{
  DrawdownState, KillSwitchState, time_field, activator_field, Number, EmergencyState, parsed_time,
  DisconnectState, reason_field, time_of, ks_to_json, disconnect_to_json, emergency_to_json,
  halt_reason_of, drawdown_to_json, activated_by_of, Time, reason_text, activator_text,
  drawdown_from_json, disconnect_from_json, activator_of, reason_of, ks_from_json,
  emergency_from_json,
}
use leverage_agnet.Safety.Types.{
  user, system, live_trading_disabled, daily_loss_limit, weekly_loss_limit, drawdown_protection,
  emergency_shutdown, consecutive_api_failures, HaltReason, Activator,
}

time_of-time_field : (A : Type 0) (t : Option Time) → time_of {A = A} (some (time_field t)) ≡ t
time_of-time_field A none = refl
time_of-time_field A (some t) = refl

parsed_time-time_field :
    (A : Type 0) (t : Option Time) → parsed_time {A = A} (some (time_field t)) ≡ some t
parsed_time-time_field A none = refl
parsed_time-time_field A (some t) = refl

reason_of-reason_text : (r : HaltReason) → reason_of (reason_text r) ≡ some r
reason_of-reason_text live_trading_disabled = refl
reason_of-reason_text daily_loss_limit = refl
reason_of-reason_text weekly_loss_limit = refl
reason_of-reason_text drawdown_protection = refl
reason_of-reason_text emergency_shutdown = refl
reason_of-reason_text consecutive_api_failures = refl

halt_reason_of-reason_field :
    (A : Type 0) (r : Option HaltReason) → halt_reason_of {A = A} (some (reason_field r)) ≡ r
halt_reason_of-reason_field A none = refl
halt_reason_of-reason_field A (some r) = reason_of-reason_text r

activator_of-activator_text : (a : Activator) → activator_of (activator_text a) ≡ some a
activator_of-activator_text user = refl
activator_of-activator_text system = refl

activated_by_of-activator_field :
    (A : Type 0) (a : Option Activator) → activated_by_of {A = A} (some (activator_field a)) ≡ a
activated_by_of-activator_field A none = refl
activated_by_of-activator_field A (some a) = activator_of-activator_text a

-- The dict of a kill switch's state gives the state back.
pub ks_from_json-ks_to_json :
    {A : Type 0} (F : Number A) (s : KillSwitchState A)
    → ks_from_json F s.user_id (ks_to_json s) ≡ s
unfolding ks_from_json ks_to_json
ks_from_json-ks_to_json {A} F s =
    rw (halt_reason_of-reason_field A s.halt_reason) (rw (time_of-time_field A s.halt_until) refl)

pub disconnect_from_json-disconnect_to_json :
    (A : Type 0) (s : DisconnectState)
    → disconnect_from_json {A = A} (disconnect_to_json s) ≡ some s
unfolding disconnect_from_json disconnect_to_json
disconnect_from_json-disconnect_to_json A s =
    rw (parsed_time-time_field A s.last_failure_at)
      (rw (parsed_time-time_field A s.halt_until) refl)

pub emergency_from_json-emergency_to_json :
    (A : Type 0) (s : EmergencyState) → emergency_from_json {A = A} (emergency_to_json s) ≡ some s
unfolding emergency_from_json emergency_to_json
emergency_from_json-emergency_to_json A s =
    rw (parsed_time-time_field A s.activated_at)
      (rw (activated_by_of-activator_field A s.activated_by) refl)

pub drawdown_from_json-drawdown_to_json :
    {A : Type 0} (F : Number A) (s : DrawdownState A)
    → drawdown_from_json F (drawdown_to_json s) ≡ s
unfolding drawdown_from_json drawdown_to_json
drawdown_from_json-drawdown_to_json F s = refl

-- Each of the four states that the Redis store keeps is read back from its dict as it was.
pub json_round_trips :
    {A : Type 0} (F : Number A) (k : KillSwitchState A) (d : DisconnectState) (e : EmergencyState)
    (w : DrawdownState A)
    → (ks_from_json F k.user_id (ks_to_json k) ≡ k)
      × (disconnect_from_json {A = A} (disconnect_to_json d) ≡ some d)
      × (emergency_from_json {A = A} (emergency_to_json e) ≡ some e)
      × (drawdown_from_json F (drawdown_to_json w) ≡ w)
json_round_trips {A} F k d e w = (
  ks_from_json-ks_to_json F k,
  disconnect_from_json-disconnect_to_json A d,
  emergency_from_json-emergency_to_json A e,
  drawdown_from_json-drawdown_to_json F w,
)
