-- ===== src/Risk/Halts.antt =====
-- How long a halt refuses every trade, what lifts it, and what happens when Redis fails. Redis is
-- reliable here, but for the last theorem.
use leverage_agnet.Redis.{
  user_cooldown, ◌>>=◌, word, has_ended, Client, Value, Key, IsReliable, Io, pure,
  global_kill_switch, user_kill_switch, user_halt, same_key,
}
use leverage_agnet.Redis.Yields.{and_then-pure, answers}
use leverage_agnet.Risk.Ends.{over-has_ended, runs-has_ended, IsOver, RunsAt}
use leverage_agnet.Risk.KillSwitch.{
  resume_trading, trigger_text, halted, until_field, halt_record, compute_until, ttl_of,
  halt_trading, HaltTrigger,
}
use leverage_agnet.Risk.Validators.{check_kill_switch}
use leverage_agnet.Common.{
  [], ◌∷◌, ◌==◌, arith, ◌∙◌, ℕ, if◌then◌else◌, none, is_some, Bool, Option, refl, some, not, ◌≡◌,
  false, true, ◌||◌,
}
use leverage_agnet.Common.Calendar.{Time}
use leverage_agnet.Safety.Types.{UserId}

module _ {A R : Type 0} (redis : Client A R) (view : R → Time → Key → Option (Value A))
    (ok : IsReliable redis view) where
  -- whether one of the three keys that the check reads is there
  abbrev pub is_stopped : UserId → Time → R → Bool
  is_stopped u t r =
      is_some (view r t global_kill_switch)
      || (is_some (view r t (user_kill_switch u)) || is_some (view r t (user_halt u)))

  stops :
      (b b' : Bool) (rest : Io R Bool) (r : R)
      → rest r ≡ (some (not b'), r)
      → (if b then pure false else rest) r ≡ (some (not (b || b')), r)
  stops true b' rest r h = refl
  stops false b' rest r h = h

  ask :
      (k : Key) (t : Time) (b' : Bool) (rest : Io R Bool) (r : R)
      → rest r ≡ (some (not b'), r)
      → (redis.exists k t >>= λ found. if found then pure false else rest) r
        ≡ (some (not (is_some (view r t k) || b')), r)
  ask k t b' rest r h =
      answers (redis.exists k t) (λ found. if found then pure false else rest) r r
        (is_some (view r t k)) (ok.exists_lem k t r)
      ∙ stops (is_some (view r t k)) b' rest r h

  halt_answer :
      (u : UserId) (t : Time) (r : R)
      → (redis.get (user_halt u) t >>= λ halt. pure (not (is_some halt))) r
        ≡ (some (not (is_some (view r t (user_halt u)))), r)
  halt_answer u t r =
      answers (redis.get (user_halt u) t) (λ halt. pure (not (is_some halt))) r r
        (view r t (user_halt u)) (ok.get_lem (user_halt u) t r)

  pub check_kill_switch_lem :
      (u : UserId) (t : Time) (r : R)
      → check_kill_switch redis u t r ≡ (some (not (is_stopped u t r)), r)
  unfolding check_kill_switch
  check_kill_switch_lem u t r =
      ask global_kill_switch t _ _ r
        (ask (user_kill_switch u) t (is_some (view r t (user_halt u))) _ r (halt_answer u t r))

  pub halted_view :
      (u : UserId) (trigger : HaltTrigger) (reason : ℕ) (now : Time) (r : R) (t : Time) (k : Key)
      → view (halt_trading redis u trigger reason now r).1 t k ≡ (
          if same_key k (user_halt u)
          then (if has_ended (ttl_of (compute_until trigger now) now) now t
              then none
              else some (halt_record trigger reason now))
          else view r t k)
  unfolding halt_trading
  halted_view u trigger reason now r t k =
      let set =
        redis.set (user_halt u) (halt_record trigger reason now)
          (ttl_of (compute_until trigger now) now) now r in
      let s =
        halted {A = A} (some (word (trigger_text trigger)))
          (some (until_field (compute_until trigger now))) in
      rw (and_then-pure set.0 set.1 s) (
        ok.set_lem (user_halt u) (halt_record trigger reason now)
          (ttl_of (compute_until trigger now) now) now r t k)

  module _ (u : UserId) (trigger : HaltTrigger) (reason : ℕ) (now : Time) (r : R) (t : Time) where
    same_user : (u == u) ≡ true
    same_user = ground arith

    halt_stops : is_stopped u t (halt_trading redis u trigger reason now r).1 ≡ (
        is_some (view r t global_kill_switch)
        || (is_some (view r t (user_kill_switch u))
            || not (has_ended (ttl_of (compute_until trigger now) now) now t)))
    halt_stops = rw (halted_view u trigger reason now r t global_kill_switch) (
        rw (halted_view u trigger reason now r t (user_kill_switch u))
          (rw (halted_view u trigger reason now r t (user_halt u)) (ground (arith, same_user))))

    -- A halt refuses all trades of the user up to a second before its end, and for ever if the
    -- trigger wants a manual resume.
    pub halt_trading-blocks :
        RunsAt (compute_until trigger now) t
        → (check_kill_switch redis u t (halt_trading redis u trigger reason now r).1).0 ≡ some false
    halt_trading-blocks h =
        rw (check_kill_switch_lem u t (halt_trading redis u trigger reason now r).1)
          (rw halt_stops (rw (runs-has_ended (compute_until trigger now) now t h) (ground arith)))

    -- From a second after the end of a halt on, only an active kill switch refuses the user.
    pub halt_trading-ends :
        IsOver (compute_until trigger now) now t
        → (check_kill_switch redis u t (halt_trading redis u trigger reason now r).1).0
          ≡ some (
              not
                (is_some (view r t global_kill_switch) || is_some (view r t (user_kill_switch u))))
    halt_trading-ends h =
        rw (check_kill_switch_lem u t (halt_trading redis u trigger reason now r).1)
          (rw halt_stops (rw (over-has_ended (compute_until trigger now) now t h) (ground arith)))

    -- After a manual resume, only the global kill switch refuses the user.
    pub resume_trading-check_kill_switch :
        (check_kill_switch redis u t (resume_trading redis u now r).1).0
        ≡ some (not (is_some (view r t global_kill_switch)))
    unfolding resume_trading
    resume_trading-check_kill_switch =
        let keys = user_halt u ∷ user_kill_switch u ∷ user_cooldown u ∷ [] in
        rw (check_kill_switch_lem u t (redis.delete keys now r).1) (
          rw (ok.delete_lem keys now r t global_kill_switch) (
            rw (ok.delete_lem keys now r t (user_kill_switch u))
              (rw (ok.delete_lem keys now r t (user_halt u)) (ground (arith, same_user)))))
