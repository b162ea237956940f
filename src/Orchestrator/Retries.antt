-- ===== src/Orchestrator/Retries.antt =====
-- What the runner of one agent does, over all the ways in which its attempts can go.
use native.Mathlib.Nat.{mul-add}
use leverage_agnet.Common.{
  subst, ℕ, zero, suc, ◌+◌, ◌*◌, ◌^◌, ◌≤◌, ◌≡◌, ◌⊎◌, inl, inr, refl, none, some, arith,
}
use leverage_agnet.Orchestrator.Runner.{
  settle, mark_failed, mark_success, Outcome, finished, timed_out, raised, AgentResult, success,
  failed, attempts, run,
}

-- `Misses call n w w'`: `n` calls in a row, none of which finishes, take `w` to `w'`.
pub data Misses {W B : Type 0} (call : W → Outcome B × W) : ℕ → W → W → Type 0 where
  start : (w : W) → Misses call 0 w w
  times_out :
      (n : ℕ) (w w₁ w₂ : W)
      → call w ≡ (timed_out, w₁)
      → Misses call n w₁ w₂
      → Misses call (suc n) w w₂
  raises :
      (n : ℕ) (w w₁ w₂ : W) → call w ≡ (raised, w₁) → Misses call n w₁ w₂ → Misses call (suc n) w w₂

-- The loop, begun after `done` attempts, ended with a call that finished.
pub record IsAnswered {W B : Type 0} (base : ℕ) (call : W → Outcome B × W) (left done : ℕ) (w : W)
    (e : AgentResult B × W) : Type 0 where
  pub missed : ℕ
  pub before : W
  pub value : B
  pub is_within : missed ≤ left
  pub misses : Misses call missed w before
  pub answers : call before ≡ (finished value, e.1)
  pub is_success : e.0.status ≡ success
  pub has_value : e.0.output ≡ some value
  pub counts : e.0.attempt ≡ suc (done + missed)
  pub waits : e.0.waited + base ≡ base * 2 ^ (done + missed)

-- Every attempt of it missed.
pub record IsExhausted {W B : Type 0} (base : ℕ) (call : W → Outcome B × W) (left done : ℕ) (w : W)
    (e : AgentResult B × W) : Type 0 where
  pub misses : Misses call (suc left) w e.1
  pub is_failed : e.0.status ≡ failed
  pub has_none : e.0.output ≡ none
  pub counts : e.0.attempt ≡ suc (done + left)
  pub waits : e.0.waited + base ≡ base * 2 ^ (done + left)

double : (base x y : ℕ) → y ≡ x + x → base * y ≡ base * x + base * x
double base x y e = rw (e, mul-add)

next_wait :
    (base waited n : ℕ)
    → waited + base ≡ base * 2 ^ n
    → (waited + base * 2 ^ n) + base ≡ base * 2 ^ suc n
next_wait base waited n h = omega (arith, h, double base (2 ^ n) (2 ^ suc n) (omega arith))

settle_cases :
    {B W R : Type 0} (P : R → Type 0) (hit : B → W → R) (miss : W → R) (x : Outcome B × W)
    → ((b : B) → x ≡ (finished b, x.1) → P (hit b x.1))
    → (x ≡ (timed_out, x.1) → P (miss x.1))
    → (x ≡ (raised, x.1) → P (miss x.1))
    → P (settle (λ b. hit b x.1) (miss x.1) x.0)
settle_cases P hit miss (finished b, w) f t r = f b refl
settle_cases P hit miss (timed_out, w) f t r = t refl
settle_cases P hit miss (raised, w) f t r = r refl

module _ {W B : Type 0} (base : ℕ) (call : W → Outcome B × W) where
  -- the ends of a loop whose first attempt missed, from those of the rest
  later :
      (left done : ℕ) (w w₁ : W) (e : AgentResult B × W)
      → ((n : ℕ) (w₂ : W) → Misses call n w₁ w₂ → Misses call (suc n) w w₂)
      → IsAnswered base call left (suc done) w₁ e ⊎ IsExhausted base call left (suc done) w₁ e
      → IsAnswered base call (suc left) done w e ⊎ IsExhausted base call (suc left) done w e
  later left done w w₁ e longer (inl a) = inl (record {
    missed = suc a.missed;
    before = a.before;
    value = a.value;
    is_within = omega (arith, a.is_within);
    misses = longer a.missed a.before a.misses;
    answers = a.answers;
    is_success = a.is_success;
    has_value = a.has_value;
    counts = omega (arith, a.counts);
    waits = subst (λ n. e.0.waited + base ≡ base * 2 ^ n) (omega arith) a.waits;
  })
  later left done w w₁ e longer (inr x) = inr (record {
    misses = longer (suc left) e.1 x.misses;
    is_failed = x.is_failed;
    has_none = x.has_none;
    counts = omega (arith, x.counts);
    waits = subst (λ n. e.0.waited + base ≡ base * 2 ^ n) (omega arith) x.waits;
  })

  abbrev Ends : ℕ → ℕ → W → AgentResult B × W → Type 0
  Ends left done w e = IsAnswered base call left done w e ⊎ IsExhausted base call left done w e

  at_once :
      (left done waited : ℕ) (w w' : W) (b : B)
      → waited + base ≡ base * 2 ^ done
      → call w ≡ (finished b, w')
      → Ends left done w (mark_success (suc done) waited b, w')
  at_once left done waited w w' b h e = inl (record {
    missed = 0;
    before = w;
    value = b;
    is_within = omega arith;
    misses = start w;
    answers = e;
    is_success = refl;
    has_value = refl;
    counts = omega arith;
    waits = subst (λ n. waited + base ≡ base * 2 ^ n) (omega arith) h;
  })

  last_miss :
      (done waited : ℕ) (w w' : W)
      → waited + base ≡ base * 2 ^ done
      → Misses call 1 w w'
      → Ends 0 done w (mark_failed (suc done) waited, w')
  last_miss done waited w w' h m = inr (record {
    misses = m;
    is_failed = refl;
    has_none = refl;
    counts = omega arith;
    waits = subst (λ n. waited + base ≡ base * 2 ^ n) (omega arith) h;
  })

  attempts-Ends :
      (left done waited : ℕ) (w : W)
      → waited + base ≡ base * 2 ^ done
      → Ends left done w (attempts base call left done waited w)
  unfolding attempts
  attempts-Ends zero done waited w h =
      settle_cases (Ends 0 done w) (λ b w'. (mark_success (suc done) waited b, w'))
        (λ w'. (mark_failed (suc done) waited, w')) (call w)
        (λ b e. at_once 0 done waited w (call w).1 b h e)
        (λ e. last_miss done waited w _ h (times_out 0 w _ _ e (start _)))
        (λ e. last_miss done waited w _ h (raises 0 w _ _ e (start _)))
  attempts-Ends (suc left) done waited w h =
      let rest =
        attempts-Ends left (suc done) (waited + base * 2 ^ done) (call w).1
          (next_wait base waited done h) in
      settle_cases (Ends (suc left) done w) (λ b w'. (mark_success (suc done) waited b, w'))
        (λ w'. attempts base call left (suc done) (waited + base * 2 ^ done) w') (call w)
        (λ b e. at_once (suc left) done waited w (call w).1 b h e)
        (λ e. later left done w _ _ (λ n w₂ m. times_out n w _ w₂ e m) rest)
        (λ e. later left done w _ _ (λ n w₂ m. raises n w _ w₂ e m) rest)

  -- A run of an agent with `max_retries` ends in one of two ways. Some call finished, after at
  -- most `max_retries` calls in a row that timed out or raised: then the result is a success with
  -- that call's value, and its attempt number is one more than the misses. Or all of
  -- `max_retries + 1` calls missed: then it is a failure without a value. No further call is made,
  -- and the sleeps double from `base_delay`, so that `n` of them add up to `base_delay * (2 ^ n - 1)`.
  pub run-Ends :
      (max_retries : ℕ) (w : W)
      → let e = run base call max_retries w in
        IsAnswered base call max_retries 0 w e ⊎ IsExhausted base call max_retries 0 w e
  unfolding run
  run-Ends max_retries w = attempts-Ends max_retries 0 0 w (omega arith)
