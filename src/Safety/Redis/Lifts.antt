-- ===== src/Safety/Redis/Lifts.antt =====
-- The emergency state and the global kill switch, and how the daily switch lifts a weekly halt that
-- the risk engine has written. Redis is reliable.
use leverage_agnet.Redis.{
  is_among, same_key, Client, Io, Value, Key, ◌>>=◌, pure, object, IsReliable, daily_key,
  weekly_key, user_halt, user_kill_switch, global_kill_switch, emergency_key,
}
use leverage_agnet.Redis.Yields.{answers, returns}
use leverage_agnet.Risk.Ends.{runs-has_ended, RunsAt}
use leverage_agnet.Risk.Halts.{halt_trading-blocks, check_kill_switch_lem, halted_view}
use leverage_agnet.Risk.KillSwitch.{halt_record, halt_trading, compute_until, weekly_loss_limit}
use leverage_agnet.Risk.Validators.{check_kill_switch}
use leverage_agnet.Common.{
  ◌||◌, arith, is_some, ap, not, ◌∷◌, if◌then◌else◌, ◌∙◌, ℕ, Bool, ◌≡◌, Option, refl, false, true,
  some, none, [],
}
use leverage_agnet.Common.Calendar.{Time}
use leverage_agnet.Safety.Redis.{ks_to_json, emergency_to_json}
use leverage_agnet.Safety.Redis.Shared.{set_is_sync, written}
use leverage_agnet.Safety.Redis.Store.{
  other_halted, lift_halt, shared_halt, sync_shared_halt, set_emergency_state,
  set_daily_kill_switch, daily_switch, compute_ttl, shared_activation,
}
use leverage_agnet.Safety.Types.{KillSwitchState, UserId, EmergencyState}

module _ {A R : Type 0} (redis : Client A R) (view : R → Time → Key → Option (Value A))
    (ok : IsReliable redis view) where
  module _ (e : EmergencyState) (now : Time) (r : R) (u : UserId) (t : Time) where
    abbrev stored : R
    stored = (redis.set emergency_key (object (emergency_to_json e)) none now r).1

    abbrev globally : Bool → Io R (Unit {0})
    globally active =
        if active
        then redis.set global_kill_switch (shared_activation e) none now
        else redis.delete (global_kill_switch ∷ []) now

    emergency_is_global :
        (b : Bool) → e.is_active ≡ b → set_emergency_state redis e now r ≡ globally b stored
    unfolding set_emergency_state
    emergency_is_global b h =
        let set = redis.set emergency_key (object (emergency_to_json e)) none now in
        answers set (λ _. globally e.is_active) r stored tt
          (returns set r tt
            (ok.set_returns emergency_key (object (emergency_to_json e)) none now r))
        ∙ ap (λ (b : Bool). globally b stored) h

    stored_view : (k : Key) → same_key k emergency_key ≡ false → view stored t k ≡ view r t k
    stored_view k h =
        ok.set_lem emergency_key (object (emergency_to_json e)) none now r t k ∙ rw h refl

    -- Right after an active emergency state is stored, the risk engine refuses every user, whatever
    -- the clock says. Nothing is said of what a later call makes of the global kill switch.
    pub set_emergency_state-blocks :
        e.is_active ≡ true
        → (check_kill_switch redis u t (set_emergency_state redis e now r).1).0 ≡ some false
    set_emergency_state-blocks active =
        let r' = (globally true stored).1 in
        ap (λ (x : Option (Unit {0}) × R). (check_kill_switch redis u t x.1).0)
          (emergency_is_global true active)
        ∙ ap (λ (x : Option Bool × R). x.0) (check_kill_switch_lem redis view ok u t r')
        ∙ rw
            (ok.set_lem global_kill_switch (shared_activation e) none now stored t
              global_kill_switch)
            refl

    -- An emergency state that is stored as inactive lifts the global kill switch, whoever has set
    -- it: only the user's own switch and halt refuse from then on.
    pub set_emergency_state-lifts :
        e.is_active ≡ false
        → (check_kill_switch redis u t (set_emergency_state redis e now r).1).0
          ≡ some (not (is_some (view r t (user_kill_switch u)) || is_some (view r t (user_halt u))))
    set_emergency_state-lifts inactive =
        let r' = (globally false stored).1 in
        let gone = ok.delete_lem (global_kill_switch ∷ []) now stored t in
        ap (λ (x : Option (Unit {0}) × R). (check_kill_switch redis u t x.1).0)
          (emergency_is_global false inactive)
        ∙ ap (λ (x : Option Bool × R). x.0) (check_kill_switch_lem redis view ok u t r')
        ∙ rw (gone global_kill_switch) (
            rw (gone (user_kill_switch u)) (
              rw (gone (user_halt u)) (
                rw (stored_view (user_kill_switch u) refl)
                  (rw (stored_view (user_halt u) refl) refl))))

  module _ (u : UserId) (k : KillSwitchState A) (reason : ℕ) (start now : Time) (r : R)
      (runs : RunsAt (compute_until weekly_loss_limit start) now) (unhalted : k.is_halted ≡ false)
      (no_weekly : view r now (weekly_key u) ≡ none) where
    abbrev halted_state : R
    halted_state = (halt_trading redis u weekly_loss_limit reason start r).1

    abbrev daily_written : R
    daily_written = written redis view ok daily_switch u k now halted_state now

    written_view :
        (t : Time) (j : Key)
        → same_key j (daily_key u) ≡ false
        → view daily_written t j ≡ view halted_state t j
    written_view t j h =
        ok.set_lem (daily_key u) (object (ks_to_json k)) (compute_ttl k.halt_until now) now
          halted_state t j
        ∙ rw h refl

    halt_found :
        view daily_written now (user_halt u) ≡ some (halt_record weekly_loss_limit reason start)
    halt_found =
        written_view now (user_halt u) refl
        ∙ halted_view redis view ok u weekly_loss_limit reason start r now (user_halt u)
        ∙ rw (runs-has_ended (compute_until weekly_loss_limit start) start now runs) (ground arith)

    weekly_missing : view daily_written now (weekly_key u) ≡ none
    weekly_missing =
        written_view now (weekly_key u) refl
        ∙ halted_view redis view ok u weekly_loss_limit reason start r now (weekly_key u)
        ∙ no_weekly

    lifted :
        set_daily_kill_switch redis u k now halted_state
        ≡ redis.delete (user_halt u ∷ []) now daily_written
    unfolding sync_shared_halt
    lifted =
        let set =
          redis.set (user_halt u) (shared_halt "DAILY_LOSS_LIMIT" k.halt_until now)
            (compute_ttl k.halt_until now) now in
        let get = redis.get (user_halt u) now in
        let found = halt_record {A = A} weekly_loss_limit reason start in
        set_is_sync redis view ok daily_switch u k now halted_state now
        ∙ ap
            (λ (b : Bool).
              (if b then set else (get >>= lift_halt redis daily_switch u now)) daily_written)
            unhalted
        ∙ answers get (lift_halt redis daily_switch u now) daily_written daily_written (some found)
            (ok.get_lem (user_halt u) now daily_written
              ∙ ap (λ (v : Option (Value A)). (some v, daily_written)) halt_found)
        ∙ answers (redis.get (weekly_key u) now)
            (λ other. other_halted other >>= λ is_halted.
              if is_halted then pure tt else redis.delete (user_halt u ∷ []) now)
            daily_written daily_written none
            (ok.get_lem (weekly_key u) now daily_written
              ∙ ap (λ (v : Option (Value A)). (some v, daily_written)) weekly_missing)

    final_view :
        (t : Time) (j : Key)
        → same_key j (daily_key u) ≡ false
        → view (set_daily_kill_switch redis u k now halted_state).1 t j
          ≡ (if is_among j (user_halt u ∷ []) then none else view halted_state t j)
    final_view t j h =
        ap (λ (x : Option (Unit {0}) × R). view x.1 t j) lifted
        ∙ ok.delete_lem (user_halt u ∷ []) now daily_written t j
        ∙ rw (written_view t j h) refl

    untouched :
        (t : Time) (j : Key)
        → same_key j (daily_key u) ≡ false
        → is_among j (user_halt u ∷ []) ≡ false
        → same_key j (user_halt u) ≡ false
        → view (set_daily_kill_switch redis u k now halted_state).1 t j ≡ view r t j
    untouched t j h g f =
        final_view t j h
        ∙ rw g (halted_view redis view ok u weekly_loss_limit reason start r t j ∙ rw f refl)

    -- A weekly halt that the risk engine has written still refuses the user when the daily switch
    -- stores a state that is not halted. If the weekly switch has no state of its own, this lifts the
    -- weekly halt: from then on only a kill switch refuses the user.
    pub set_daily_kill_switch-lifts :
        (t : Time)
        → ((check_kill_switch redis u now
              (halt_trading redis u weekly_loss_limit reason start r).1).0
            ≡ some false)
          × ((check_kill_switch redis u t
                (set_daily_kill_switch redis u k now
                  (halt_trading redis u weekly_loss_limit reason start r).1).1).0
              ≡ some (
                  not (
                    is_some (view r t global_kill_switch)
                    || is_some (view r t (user_kill_switch u)))))
    set_daily_kill_switch-lifts t =
        let r' = (set_daily_kill_switch redis u k now halted_state).1 in
        (
          halt_trading-blocks redis view ok u weekly_loss_limit reason start r now runs,
          ap (λ (x : Option Bool × R). x.0) (check_kill_switch_lem redis view ok u t r')
              ∙ rw (untouched t global_kill_switch refl refl refl) (
                  rw (untouched t (user_kill_switch u) refl refl refl)
                    (rw (final_view t (user_halt u) refl) (ground arith))),
        )
