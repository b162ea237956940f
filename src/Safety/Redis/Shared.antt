-- ===== src/Safety/Redis/Shared.antt =====
-- The states that the safety layer stores in Redis, and the two keys that it shares with the risk
-- engine. Redis is reliable.
use leverage_agnet.Redis.{
  has_ended, same_key, is_among, Client, Io, Value, Key, ◌>>=◌, pure, object, moment, field,
  IsReliable, user_halt,
}
use leverage_agnet.Redis.Yields.{returns, answers}
use leverage_agnet.Risk.Ends.{RunsAt, runs-has_ended}
use leverage_agnet.Risk.Halts.{check_kill_switch_lem}
use leverage_agnet.Risk.KillSwitch.{ttl_of}
use leverage_agnet.Risk.Validators.{check_kill_switch}
use leverage_agnet.Common.{
  true, ap, if◌then◌else◌, if_cases, ◌∙◌, arith, Bool, ◌≡◌, Option, ◌∷◌, refl, false, some, none,
  [],
}
use leverage_agnet.Common.Calendar.{Time}
use leverage_agnet.Safety.Redis.{ks_to_json, Number, flag_or}
use leverage_agnet.Safety.Redis.RoundTrips.{ks_from_json-ks_to_json}
use leverage_agnet.Safety.Redis.Store.{
  weekly_switch, daily_switch, set_weekly_kill_switch, get_weekly_kill_switch,
  set_daily_kill_switch, get_kill_switch, get_daily_kill_switch, write_ks_key, set_kill_switch,
  compute_ttl, is_safety_trigger, shared_halt, other_halted, lift_halt, sync_shared_halt, Switch,
}
use leverage_agnet.Safety.Types.{KillSwitchState, UserId}

is_among-one : (j k : Key) → is_among j (k ∷ []) ≡ false → same_key j k ≡ false
is_among-one j k h = ground (arith, h)

ttl_same :
    (o : Option Time) (now t : Time)
    → has_ended (compute_ttl o now) now t ≡ has_ended (ttl_of o now) now t
ttl_same none now t = refl
ttl_same (some end) now t = refl

module _ {A R : Type 0} (redis : Client A R) (view : R → Time → Key → Option (Value A))
    (ok : IsReliable redis view) where
  module _ (s : Switch) (u : UserId) (now : Time) (r : R) (t : Time) (j : Key)
      (apart : is_among j (user_halt u ∷ []) ≡ false) where
    abbrev Keeps : Io R (Unit {0}) → Type 0
    Keeps m = view (m r).1 t j ≡ view r t j

    delete_keeps : Keeps (redis.delete (user_halt u ∷ []) now)
    delete_keeps = ok.delete_lem (user_halt u ∷ []) now r t j ∙ rw apart refl

    choice_keeps : (b : Bool) → Keeps (if b then pure tt else redis.delete (user_halt u ∷ []) now)
    choice_keeps b = if_cases Keeps b _ _ (λ _. refl) (λ _. delete_keeps)

    other_keeps :
        (o : Option (Value A))
        → Keeps (
            other_halted o >>= λ is_halted.
            if is_halted then pure tt else redis.delete (user_halt u ∷ []) now)
    other_keeps none = choice_keeps false
    other_keeps (some (object d)) = choice_keeps (flag_or (field "is_halted" d) false)
    other_keeps (some (moment _)) = refl

    lift_keeps : (v : Option (Value A)) → Keeps (lift_halt redis s u now v)
    lift_keeps none = refl
    lift_keeps (some (moment _)) = refl
    lift_keeps (some (object d)) =
        if_cases Keeps (is_safety_trigger (field "trigger" d)) _ _
          (λ _.
            ap (λ (x : Option (Unit {0}) × R). view x.1 t j)
              (answers (redis.get (s.other_key u) now) _ r r _ (ok.get_lem (s.other_key u) now r))
            ∙ other_keeps (view r now (s.other_key u)))
          (λ _. refl)

    -- The shared key is the only one that the synchronization writes.
    sync_keeps : (k : KillSwitchState A) → Keeps (sync_shared_halt redis s u k now)
    unfolding sync_shared_halt
    sync_keeps k =
        if_cases Keeps k.is_halted _ _
          (λ _.
            ok.set_lem (user_halt u) (shared_halt s.trigger k.halt_until now)
              (compute_ttl k.halt_until now) now r t j
            ∙ rw (is_among-one j (user_halt u) apart) refl)
          (λ _.
            ap (λ (x : Option (Unit {0}) × R). view x.1 t j)
              (answers (redis.get (user_halt u) now) _ r r _ (ok.get_lem (user_halt u) now r))
            ∙ lift_keeps (view r now (user_halt u)))

  module _ (s : Switch) (u : UserId) (k : KillSwitchState A) (now : Time) (r : R) (t : Time) where
    -- the state after the switch's own key is written
    abbrev pub written : R
    written =
        (redis.set (s.own_key u) (object (ks_to_json k)) (compute_ttl k.halt_until now) now r).1

    pub set_is_sync : set_kill_switch redis s u k now r ≡ sync_shared_halt redis s u k now written
    unfolding set_kill_switch write_ks_key
    set_is_sync =
        answers (redis.set (s.own_key u) (object (ks_to_json k)) (compute_ttl k.halt_until now) now)
          _ r written tt
          (returns
            (redis.set (s.own_key u) (object (ks_to_json k)) (compute_ttl k.halt_until now) now) r
            tt
            (ok.set_returns (s.own_key u) (object (ks_to_json k)) (compute_ttl k.halt_until now) now
              r))

    own_view :
        is_among (s.own_key u) (user_halt u ∷ []) ≡ false
        → same_key (s.own_key u) (s.own_key u) ≡ true
        → view (set_kill_switch redis s u k now r).1 t (s.own_key u) ≡ (
            if has_ended (compute_ttl k.halt_until now) now t
            then none
            else some (object (ks_to_json k)))
    own_view apart same =
        ap (λ (x : Option (Unit {0}) × R). view x.1 t (s.own_key u)) set_is_sync
        ∙ sync_keeps s u now written t (s.own_key u) apart k
        ∙ ok.set_lem (s.own_key u) (object (ks_to_json k)) (compute_ttl k.halt_until now) now r t
            (s.own_key u)
        ∙ rw same refl

    shared_view :
        k.is_halted ≡ true
        → view (set_kill_switch redis s u k now r).1 t (user_halt u) ≡ (
            if has_ended (compute_ttl k.halt_until now) now t
            then none
            else some (shared_halt s.trigger k.halt_until now))
    unfolding sync_shared_halt
    shared_view halted =
        let set =
          redis.set (user_halt u) (shared_halt s.trigger k.halt_until now)
            (compute_ttl k.halt_until now) now in
        let lift = redis.get (user_halt u) now >>= lift_halt redis s u now in
        ap (λ (x : Option (Unit {0}) × R). view x.1 t (user_halt u)) set_is_sync
        ∙ ap (λ (b : Bool). view ((if b then set else lift) written).1 t (user_halt u)) halted
        ∙ ok.set_lem (user_halt u) (shared_halt s.trigger k.halt_until now)
            (compute_ttl k.halt_until now) now written t (user_halt u)
        ∙ ground arith

    ttl_runs : RunsAt k.halt_until t → has_ended (compute_ttl k.halt_until now) now t ≡ false
    ttl_runs h = ttl_same k.halt_until now t ∙ runs-has_ended k.halt_until now t h

    -- A halt of the daily or the weekly switch is seen by the risk engine: right after it is stored,
    -- and up to a second before its end, or for ever if it has none, the engine's first check
    -- refuses the user. In the last second the shared key may be gone.
    pub set_kill_switch-check_kill_switch :
        k.is_halted ≡ true
        → RunsAt k.halt_until t
        → (check_kill_switch redis u t (set_kill_switch redis s u k now r).1).0 ≡ some false
    set_kill_switch-check_kill_switch halted runs =
        let r' = (set_kill_switch redis s u k now r).1 in
        ap (λ (x : Option Bool × R). x.0) (check_kill_switch_lem redis view ok u t r')
        ∙ rw (shared_view halted) (rw (ttl_runs runs) (ground arith))

  module _ (F : Number A) (k : KillSwitchState A) (now : Time) (r : R) (t : Time)
      (runs : RunsAt k.halt_until t) where
    read_back :
        (s : Switch) (r' : R)
        → view r' t (s.own_key k.user_id) ≡ some (object (ks_to_json k))
        → get_kill_switch F redis s k.user_id t r' ≡ (some k, r')
    unfolding get_kill_switch
    read_back s r' h =
        answers (redis.get (s.own_key k.user_id) t) _ r' r' _
          (ok.get_lem (s.own_key k.user_id) t r')
        ∙ rw h (rw (ks_from_json-ks_to_json F k) refl)

    -- Up to a second before the end of its halt, and for ever if it has none, the state that a switch
    -- has just stored is read back from Redis as it was. In the last second its key may be gone.
    pub get_kill_switch-set_kill_switch :
        ((get_daily_kill_switch F redis k.user_id t
            (set_daily_kill_switch redis k.user_id k now r).1).0
          ≡ some k)
        × ((get_weekly_kill_switch F redis k.user_id t
              (set_weekly_kill_switch redis k.user_id k now r).1).0
            ≡ some k)
    get_kill_switch-set_kill_switch =
        let u = k.user_id in
        let e = ttl_runs daily_switch u k now r t runs in
        (
          ap (λ (x : Option (KillSwitchState A) × R). x.0)
              (read_back daily_switch (set_daily_kill_switch redis u k now r).1
                (own_view daily_switch u k now r t refl (ground arith) ∙ rw e refl)),
          ap (λ (x : Option (KillSwitchState A) × R). x.0)
              (read_back weekly_switch (set_weekly_kill_switch redis u k now r).1
                (own_view weekly_switch u k now r t refl (ground arith) ∙ rw e refl)),
        )
