-- ===== src/Orchestrator/Runner.antt =====
-- agents/orchestrator/runner.py: `AgentRunner.run`. A call of an agent takes the state of the
-- world outside to an outcome and the next state.
use leverage_agnet.Common.{ℕ, zero, suc, ◌+◌, ◌*◌, ◌^◌, Option, none, some}

-- what `asyncio.wait_for(coro_fn(), timeout)` does
pub data Outcome (B : Type 0) : Type 0 where
  finished : B → Outcome B
  timed_out raised : Outcome B

-- `AgentStatus` of a step that is over
pub data AgentStatus : Type 0 where
  success failed skipped : AgentStatus

-- `AgentResult`, less its times and error text; `waited` is the sum of the sleeps
pub record AgentResult (B : Type 0) : Type 0 where
  pub status : AgentStatus
  pub output : Option B
  pub attempt : ℕ
  pub waited : ℕ

-- `mark_success` and `mark_failed`
abbrev pub mark_success : {B : Type 0} → ℕ → ℕ → B → AgentResult B
mark_success attempt waited b = record {
  status = success;
  output = some b;
  attempt = attempt;
  waited = waited;
}

abbrev pub mark_failed : {B : Type 0} → ℕ → ℕ → AgentResult B
mark_failed attempt waited = record {
  status = failed;
  output = none;
  attempt = attempt;
  waited = waited;
}

-- a `try` block: `hit` on a value, `miss` on a timeout and on an exception
abbrev pub settle : {B R : Type 0} → (B → R) → R → Outcome B → R
settle hit miss (finished b) = hit b
settle hit miss timed_out = miss
settle hit miss raised = miss

module _ {W B : Type 0} (base_delay : ℕ) (call : W → Outcome B × W) where
  -- `asyncio.sleep(base_delay * 2 ** (attempt - 1))`, where `done` is `attempt - 1`
  abbrev pub delay : ℕ → ℕ
  delay done = base_delay * 2 ^ done

  -- The loop, after `done` attempts and with `left` more after the coming one.
  unfoldable pub attempts : ℕ → ℕ → ℕ → W → AgentResult B × W
  attempts zero done waited w =
      let (outcome, w') = call w in
      settle (λ b. (mark_success (suc done) waited b, w')) (mark_failed (suc done) waited, w')
        outcome
  attempts (suc left) done waited w =
      let (outcome, w') = call w in
      let rest = attempts left (suc done) (waited + delay done) w' in
      settle (λ b. (mark_success (suc done) waited b, w')) rest outcome

  unfoldable pub run : ℕ → W → AgentResult B × W
  run max_retries w = attempts max_retries 0 0 w
