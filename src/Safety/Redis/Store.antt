-- ===== src/Safety/Redis/Store.antt =====
-- backend/app/safety/state.py: the methods of `RedisSafetyStateStore`. A text of Redis that is no
-- dict makes `json.loads` raise. The readings of the clock within one call are one argument.
use leverage_agnet.Redis.{
  of_option, Client, Io, Value, Key, ◌>>=◌, pure, raise, object, moment, field, word, note, flag,
  iso, daily_key, weekly_key, drawdown_key, disconnect_key, emergency_key, user_halt,
  global_kill_switch, Field,
}
use text.Mathlib.Text.{◌==◌ as ◌=text=◌}
use leverage_agnet.Common.{
  ◌/◌, ◌-◌, ◌||◌, ltb, ℕ, if◌then◌else◌, [], Bool, String, Option, ◌∷◌, false, some, none,
}
use leverage_agnet.Common.Calendar.{Time, second}
use leverage_agnet.Common.Number.{Number}
use leverage_agnet.Safety.Redis.{
  flag_or, ks_from_risk_halt, disconnect_from_json, drawdown_to_json, ks_from_json,
  emergency_to_json, ks_to_json, disconnect_to_json, emergency_from_json, drawdown_from_json,
}
use leverage_agnet.Safety.Types.{
  HaltReason, KillSwitchState, DisconnectState, EmergencyState, DrawdownState, UserId,
  daily_loss_limit, weekly_loss_limit, new_kill_switch, new_disconnect, new_emergency, new_drawdown,
}

abbrev pub compute_ttl : Option Time → Time → Option ℕ
compute_ttl none now = none
compute_ttl (some end) now = some (if ltb 1 ((end - now) / second) then (end - now) / second else 1)

-- the two kill switches: their own key, the other's, and the trigger in the halt that the risk
-- engine reads
pub record Switch : Type 0 where
  pub own_key : UserId → Key
  pub other_key : UserId → Key
  pub trigger : String
  pub reason : HaltReason

abbrev pub daily_switch : Switch
daily_switch = record {
  own_key = daily_key;
  other_key = weekly_key;
  trigger = "DAILY_LOSS_LIMIT";
  reason = daily_loss_limit;
}

abbrev pub weekly_switch : Switch
weekly_switch = record {
  own_key = weekly_key;
  other_key = daily_key;
  trigger = "WEEKLY_LOSS_LIMIT";
  reason = weekly_loss_limit;
}

abbrev pub has_text : {A : Type 0} → Option (Field A) → String → Bool
has_text (some (word w)) t = w =text= t
has_text _ t = false

-- `data.get("trigger", "") in _SAFETY_TRIGGERS`
abbrev pub is_safety_trigger : {A : Type 0} → Option (Field A) → Bool
is_safety_trigger f = has_text f "DAILY_LOSS_LIMIT" || has_text f "WEEKLY_LOSS_LIMIT"

abbrev pub until_text : {A : Type 0} → Option Time → Field A
until_text none = word "manual_resume"
until_text (some t) = iso t

-- The reason that is written is a fixed text, here 0.
abbrev pub shared_halt : {A : Type 0} → String → Option Time → Time → Value A
shared_halt trigger until now = object (
    ("trigger", word trigger)
    ∷ ("reason", note 0)
    ∷ ("until", until_text until)
    ∷ ("halted_at", iso now)
    ∷ ("closes_existing", flag false)
    ∷ [])

abbrev pub activated_field : {A : Type 0} → Option Time → Field A
activated_field none = word ""
activated_field (some t) = iso t

abbrev pub shared_activation : {A : Type 0} → EmergencyState → Value A
shared_activation state =
    object
      (("reason", note state.reason) ∷ ("activated_at", activated_field state.activated_at) ∷ [])

-- `other_data.get("is_halted", False)` of the text under the other key
abbrev pub other_halted : {A R : Type 0} → Option (Value A) → Io R Bool
other_halted none = pure false
other_halted (some (object d)) = pure (flag_or (field "is_halted" d) false)
other_halted (some (moment _)) = raise

module _ {A R : Type 0} (redis : Client A R) where
  unfoldable pub write_ks_key : Key → KillSwitchState A → Time → Io R (Unit {0})
  write_ks_key key state now =
      redis.set key (object (ks_to_json state)) (compute_ttl state.halt_until now) now

  -- the end of the halt of one switch: the shared key goes, unless another trigger wrote it or the
  -- other switch is halted
  abbrev pub lift_halt : Switch → UserId → Time → Option (Value A) → Io R (Unit {0})
  lift_halt s u now none = pure tt
  lift_halt s u now (some (moment _)) = raise
  lift_halt s u now (some (object d)) =
      if is_safety_trigger (field "trigger" d)
      then (redis.get (s.other_key u) now >>= λ other. other_halted other >>= λ is_halted.
          if is_halted then pure tt else redis.delete (user_halt u ∷ []) now)
      else pure tt

  unfoldable pub sync_shared_halt : Switch → UserId → KillSwitchState A → Time → Io R (Unit {0})
  sync_shared_halt s u state now =
      if state.is_halted
      then redis.set (user_halt u) (shared_halt s.trigger state.halt_until now)
          (compute_ttl state.halt_until now) now
      else (redis.get (user_halt u) now >>= lift_halt s u now)

  unfoldable pub set_kill_switch : Switch → UserId → KillSwitchState A → Time → Io R (Unit {0})
  set_kill_switch s u state now =
      write_ks_key (s.own_key u) state now >>= λ _. sync_shared_halt s u state now

  abbrev pub set_daily_kill_switch : UserId → KillSwitchState A → Time → Io R (Unit {0})
  set_daily_kill_switch = set_kill_switch daily_switch

  abbrev pub set_weekly_kill_switch : UserId → KillSwitchState A → Time → Io R (Unit {0})
  set_weekly_kill_switch = set_kill_switch weekly_switch

  abbrev disconnect_of : Option (Value A) → Io R DisconnectState
  disconnect_of none = pure new_disconnect
  disconnect_of (some (object d)) = of_option (disconnect_from_json d)
  disconnect_of (some (moment _)) = raise

  unfoldable pub get_disconnect_state : Time → Io R DisconnectState
  get_disconnect_state now = redis.get disconnect_key now >>= disconnect_of

  unfoldable pub set_disconnect_state : DisconnectState → Time → Io R (Unit {0})
  set_disconnect_state state now =
      redis.set disconnect_key (object (disconnect_to_json state)) none now

  abbrev emergency_of : Option (Value A) → Io R EmergencyState
  emergency_of none = pure new_emergency
  emergency_of (some (object d)) = of_option (emergency_from_json d)
  emergency_of (some (moment _)) = raise

  unfoldable pub get_emergency_state : Time → Io R EmergencyState
  get_emergency_state now = redis.get emergency_key now >>= emergency_of

  unfoldable pub set_emergency_state : EmergencyState → Time → Io R (Unit {0})
  set_emergency_state state now =
      redis.set emergency_key (object (emergency_to_json state)) none now >>= λ _.
      if state.is_active
      then redis.set global_kill_switch (shared_activation state) none now
      else redis.delete (global_kill_switch ∷ []) now

  unfoldable pub set_drawdown_state : UserId → DrawdownState A → Time → Io R (Unit {0})
  set_drawdown_state u state now =
      redis.set (drawdown_key u) (object (drawdown_to_json state)) none now

module _ {A R : Type 0} (F : Number A) (redis : Client A R) where
  -- the halt that the risk engine has written, if its trigger is the switch's
  abbrev pub from_shared : Switch → UserId → Option (Value A) → Io R (KillSwitchState A)
  from_shared s u none = pure (new_kill_switch F u)
  from_shared s u (some (moment _)) = raise
  from_shared s u (some (object d)) = pure (
      if has_text (field "trigger" d) s.trigger
      then ks_from_risk_halt F u d s.reason
      else new_kill_switch F u)

  abbrev pub from_own : Switch → UserId → Time → Option (Value A) → Io R (KillSwitchState A)
  from_own s u now (some (object d)) = pure (ks_from_json F u d)
  from_own s u now (some (moment _)) = raise
  from_own s u now none = redis.get (user_halt u) now >>= from_shared s u

  unfoldable pub get_kill_switch : Switch → UserId → Time → Io R (KillSwitchState A)
  get_kill_switch s u now = redis.get (s.own_key u) now >>= from_own s u now

  abbrev pub get_daily_kill_switch : UserId → Time → Io R (KillSwitchState A)
  get_daily_kill_switch = get_kill_switch daily_switch

  abbrev pub get_weekly_kill_switch : UserId → Time → Io R (KillSwitchState A)
  get_weekly_kill_switch = get_kill_switch weekly_switch

  abbrev drawdown_of : Option (Value A) → Io R (DrawdownState A)
  drawdown_of none = pure (new_drawdown F)
  drawdown_of (some (object d)) = pure (drawdown_from_json F d)
  drawdown_of (some (moment _)) = raise

  unfoldable pub get_drawdown_state : UserId → Time → Io R (DrawdownState A)
  get_drawdown_state u now = redis.get (drawdown_key u) now >>= drawdown_of
