-- ===== src/Risk/KillSwitch.antt =====
-- agents/risk/kill_switch.py: `KillSwitch`. The readings of the clock within one call are one
-- argument. A reason is a text that is kept and never read: any number stands for it.
use leverage_agnet.Redis.{
  field, pure, raise, Value, Io, Field, Client, ◌>>=◌, ◌>>◌, global_kill_switch, user_kill_switch,
  user_halt, user_cooldown, object, moment, word, note, flag, iso,
}
use leverage_agnet.Risk.Types.{HaltState}
use leverage_agnet.Common.{
  ◌==◌, ◌%◌, [], ◌/◌, ltb, ◌-◌, ◌*◌, ◌∷◌, ◌+◌, if◌then◌else◌, String, Option, Bool, ℕ, false, true,
  some, none,
}
use leverage_agnet.Common.Calendar.{second, minute, weekday, day, start_of_day, Time}
use leverage_agnet.Safety.Types.{UserId}

pub data HaltTrigger : Type 0 where
  daily_loss_limit weekly_loss_limit consecutive_losses api_failures liquidation_event : HaltTrigger
  system_error manual : HaltTrigger

-- `trigger.value`
abbrev pub trigger_text : HaltTrigger → String
trigger_text daily_loss_limit = "DAILY_LOSS_LIMIT"
trigger_text weekly_loss_limit = "WEEKLY_LOSS_LIMIT"
trigger_text consecutive_losses = "CONSECUTIVE_LOSSES"
trigger_text api_failures = "API_FAILURES"
trigger_text liquidation_event = "LIQUIDATION_EVENT"
trigger_text system_error = "SYSTEM_ERROR"
trigger_text manual = "MANUAL"

abbrev pub halt_closes_existing : HaltTrigger → Bool
halt_closes_existing liquidation_event = true
halt_closes_existing system_error = true
halt_closes_existing _ = false

unfoldable pub until_midnight_utc : Time → Time
until_midnight_utc now = start_of_day now + day

-- `(7 - now.weekday()) % 7 or 7`
abbrev pub days_until_monday : Time → ℕ
days_until_monday now = if (7 - weekday now) % 7 == 0 then 7 else (7 - weekday now) % 7

unfoldable pub until_next_monday_utc : Time → Time
until_next_monday_utc now = start_of_day (now + days_until_monday now * day)

unfoldable pub until_30_minutes : Time → Time
until_30_minutes now = now + 30 * minute

-- `none` is "manual_resume"
unfoldable pub compute_until : HaltTrigger → Time → Option Time
compute_until daily_loss_limit now = some (until_midnight_utc now)
compute_until weekly_loss_limit now = some (until_next_monday_utc now)
compute_until api_failures now = some (until_30_minutes now)
compute_until _ now = none

-- `max(1, int((end - now).total_seconds()))`
abbrev pub seconds_left : Time → Time → ℕ
seconds_left end now = if ltb 1 ((end - now) / second) then (end - now) / second else 1

abbrev pub ttl_of : Option Time → Time → Option ℕ
ttl_of none now = none
ttl_of (some end) now = some (seconds_left end now)

abbrev pub until_field : {A : Type 0} → Option Time → Field A
until_field none = word "manual_resume"
until_field (some t) = iso t

abbrev pub halt_record : {A : Type 0} → HaltTrigger → ℕ → Time → Value A
halt_record trigger reason now = object (
    ("trigger", word (trigger_text trigger))
    ∷ ("reason", note reason)
    ∷ ("until", until_field (compute_until trigger now))
    ∷ ("halted_at", iso now)
    ∷ ("closes_existing", flag (halt_closes_existing trigger))
    ∷ [])

abbrev pub activation : {A : Type 0} → ℕ → Time → Value A
activation reason now = object (("reason", note reason) ∷ ("activated_at", iso now) ∷ [])

abbrev pub not_halted : {A : Type 0} → HaltState A
not_halted = record { is_halted = false; trigger = none; until = none; is_global = false }

abbrev pub halted : {A : Type 0} → Option (Field A) → Option (Field A) → HaltState A
halted trigger until = record {
  is_halted = true;
  trigger = trigger;
  until = until;
  is_global = false;
}

module _ {A R : Type 0} (redis : Client A R) where
  unfoldable pub activate_global : ℕ → Time → Io R (Unit {0})
  activate_global reason now = redis.set global_kill_switch (activation reason now) none now

  unfoldable pub deactivate_global : Time → Io R (Unit {0})
  deactivate_global now = redis.delete (global_kill_switch ∷ []) now

  unfoldable pub is_global_active : Time → Io R Bool
  is_global_active now = redis.exists global_kill_switch now

  unfoldable pub activate_user : UserId → ℕ → Time → Io R (Unit {0})
  activate_user user_id reason now =
      redis.set (user_kill_switch user_id) (activation reason now) none now

  unfoldable pub deactivate_user : UserId → Time → Io R (Unit {0})
  deactivate_user user_id now = redis.delete (user_kill_switch user_id ∷ []) now

  unfoldable pub is_user_active : UserId → Time → Io R Bool
  is_user_active user_id now = redis.exists (user_kill_switch user_id) now

  unfoldable pub halt_trading : UserId → HaltTrigger → ℕ → Time → Io R (HaltState A)
  halt_trading user_id trigger reason now = do
    redis.set (user_halt user_id) (halt_record trigger reason now)
        (ttl_of (compute_until trigger now) now) now
    pure (
        halted (some (word (trigger_text trigger)))
          (some (until_field (compute_until trigger now))))

  unfoldable pub resume_trading : UserId → Time → Io R (Unit {0})
  resume_trading user_id now =
      redis.delete (user_halt user_id ∷ user_kill_switch user_id ∷ user_cooldown user_id ∷ []) now

  -- the state that a stored halt tells; `json.loads` raises on a text that is no dict
  abbrev pub stored_halt : Option (Value A) → Io R (HaltState A)
  stored_halt none = pure not_halted
  stored_halt (some (object d)) = pure (halted (field "trigger" d) (field "until" d))
  stored_halt (some (moment _)) = raise

  -- the state of an active user kill switch, whose reason is read and kept
  abbrev pub stored_switch : Option (Value A) → Io R (HaltState A)
  stored_switch (some (moment _)) = raise
  stored_switch _ = pure (halted (some (word "MANUAL")) none)

  unfoldable pub get_halt_state : UserId → Time → Io R (HaltState A)
  get_halt_state user_id now = do
    is_global ← is_global_active now
    if is_global
        then pure (record (halted (some (word "GLOBAL")) none) { is_global = true })
        else (is_user_active user_id now >>= λ is_user.
            if is_user
            then redis.get (user_kill_switch user_id) now >>= stored_switch
            else redis.get (user_halt user_id) now >>= stored_halt)

  unfoldable pub emergency_stop : UserId → ℕ → HaltTrigger → Time → Io R (HaltState A)
  emergency_stop user_id reason trigger now = do
    activate_user user_id reason now
    halt_trading user_id trigger reason now

  unfoldable pub set_cooldown : UserId → ℕ → Time → Io R Time
  set_cooldown user_id minutes now = do
    redis.set (user_cooldown user_id) (moment (now + minutes * minute)) (some (minutes * 60)) now
    pure (now + minutes * minute)

  unfoldable pub clear_cooldown : UserId → Time → Io R (Unit {0})
  clear_cooldown user_id now = redis.delete (user_cooldown user_id ∷ []) now

  unfoldable pub get_cooldown_end : UserId → Time → Io R (Option (Value A))
  get_cooldown_end user_id now = redis.get (user_cooldown user_id) now
