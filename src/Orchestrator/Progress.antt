-- ===== src/Orchestrator/Progress.antt =====
-- What a step adds to a session, and where a run stands.
use leverage_agnet.Common.{
  zero, subst, sym, ◌<◌, ◌||◌, ◌==◌, arith, if◌then◌else◌, drop, Bool, false, ◌∙◌, suc, [], ap, ◌⊎◌,
  ◌∷◌, take, ◌≡◌, ◌++◌, ℕ, List, inr, inl, refl, some, map,
}
use leverage_agnet.Execution.Types.{ExecutionRequest}
use leverage_agnet.Orchestrator.Retries.{
  raises, times_out, start, Misses, run-Ends, IsExhausted, IsAnswered,
}
use leverage_agnet.Orchestrator.Runner.{run, finished, AgentResult, Outcome}
use leverage_agnet.Orchestrator.Steps.{
  watch, unwatch, recording, append_skipped, skips, is_recorded, run_step,
}
use leverage_agnet.Orchestrator.Types.{
  execution, rank, step_retries, step_names, StepName, Step, Session,
}

abbrev pub names : List Step → List StepName
names = map (λ s. s.name)

map-append : (xs ys : List Step) → names (xs ++ ys) ≡ names xs ++ names ys
map-append [] ys = refl
map-append (x ∷ xs) ys = ap (λ l. x.name ∷ l) (map-append xs ys)

-- the first `k` steps are recorded and no order is requested
pub record IsAt {A W : Type 0} (k : ℕ) (s : Session A W) : Type 0 where
  pub has_names : names s.steps ≡ take k step_names
  pub has_none : s.requests ≡ []

answer_of :
    {W B : Type 0} (call : W → Outcome B × W) (k : ℕ) (w : W) (e : AgentResult B × W) (b : B)
    → IsAnswered 1 call k 0 w e ⊎ IsExhausted 1 call k 0 w e
    → e.0.output ≡ some b
    → (w' : W) × (w'' : W) × (call w' ≡ (finished b, w''))
answer_of call k w e b (inl a) h = (a.before, e.1, cc)
answer_of call k w e b (inr x) h = cc

abbrev pub replicate : {B : Type 0} → ℕ → B → List B
replicate zero b = []
replicate (suc n) b = b ∷ replicate n b

-- between one and four times the one request
abbrev pub IsRepeated : {R : Type 0} → R → List R → Type 0
IsRepeated req l = (n : ℕ) × (n < 4) × (l ≡ replicate (suc n) req)

replicate-next :
    {R : Type 0} (n : ℕ) (req : R) (l : List R)
    → replicate n req ++ req ∷ l ≡ req ∷ replicate n req ++ l
replicate-next zero req l = refl
replicate-next (suc n) req l = ap (λ k. req ∷ k) (replicate-next n req l)

replicate-[] : {R : Type 0} (n : ℕ) (req : R) → replicate n req ++ [] ≡ replicate n req
replicate-[] zero req = refl
replicate-[] (suc n) req = ap (λ k. req ∷ k) (replicate-[] n req)

module _ {R W B : Type 0} (call : W → Outcome B × W) (req : R) where
  Misses-replicate :
      (n : ℕ) (x y : W × List R) → Misses (recording call req) n x y → y.1 ≡ replicate n req ++ x.1
  Misses-replicate n x y (start _) = refl
  Misses-replicate n x y (times_out m _ x₁ _ e later) =
      Misses-replicate m x₁ y later
      ∙ ap (λ k. replicate m req ++ k) (sym (ap (λ o. o.1.1) e))
      ∙ replicate-next m req x.1
  Misses-replicate n x y (raises m _ x₁ _ e later) =
      Misses-replicate m x₁ y later
      ∙ ap (λ k. replicate m req ++ k) (sym (ap (λ o. o.1.1) e))
      ∙ replicate-next m req x.1

  recorded :
      (w : W) (e : AgentResult B × (W × List R))
      → IsAnswered 1 (recording call req) 3 0 (w, []) e
        ⊎ IsExhausted 1 (recording call req) 3 0 (w, []) e
      → IsRepeated req e.1.1
  recorded w e (inl a) =
      let seen = Misses-replicate a.missed (w, []) a.before a.misses in
      (
        a.missed,
        omega (arith, a.is_within),
        sym (ap (λ o. o.1.1) a.answers) ∙ ap (λ l. req ∷ l) (seen ∙ replicate-[] a.missed req),
      )
  recorded w e (inr x) =
      (3, omega arith, Misses-replicate 4 (w, []) e.1 x.misses ∙ replicate-[] 4 req)

module _ {A W B : Type 0} (call : W → Outcome B × W) (req : ExecutionRequest A) where
  -- the execution step hands its request over between one and four times
  pub run_step-IsRepeated :
      (s : Session A W)
      → s.requests ≡ []
      → IsRepeated req (unwatch (run_step execution (recording call req) (watch s)).1).requests
  unfolding run_step
  run_step-IsRepeated s h =
      subst (λ l. IsRepeated req (run 1 (recording call req) 3 (s.world, l)).1.1) (sym h)
        (recorded call req s.world _ (run-Ends 1 (recording call req) 3 (s.world, [])))

module _ {A W : Type 0} where
  pub run_step-names :
      {B : Type 0} (n : StepName) (call : W → Outcome B × W) (s : Session A W)
      → names (run_step n call s).1.steps ≡ names s.steps ++ n ∷ []
  unfolding run_step
  run_step-names n call s = map-append s.steps _

  pub run_step-requests :
      {B : Type 0} (n : StepName) (call : W → Outcome B × W) (s : Session A W)
      → (run_step n call s).1.requests ≡ s.requests
  unfolding run_step
  run_step-requests n call s = refl

  -- a step's output is what some call of its agent answered
  pub run_step-answer :
      {B : Type 0} (n : StepName) (call : W → Outcome B × W) (s : Session A W) (b : B)
      → (run_step n call s).0 ≡ some b
      → (w : W) × (w' : W) × (call w ≡ (finished b, w'))
  unfolding run_step
  run_step-answer n call s b h =
      answer_of call (step_retries n) s.world _ b (run-Ends 1 call (step_retries n) s.world) h

  -- the next step of a run
  pub run_step-IsAt :
      {B : Type 0} (k : ℕ) (n : StepName) (call : W → Outcome B × W) (s : Session A W)
      → take k step_names ++ n ∷ [] ≡ take (suc k) step_names
      → IsAt k s
      → IsAt (suc k) (run_step n call s).1
  run_step-IsAt k n call s next h = record {
    has_names = run_step-names n call s ∙ ap (λ l. l ++ n ∷ []) h.has_names ∙ next;
    has_none = run_step-requests n call s ∙ h.has_none;
  }

abbrev is_named : StepName → List StepName → Bool
is_named n [] = false
is_named n (m ∷ ms) = rank m == rank n || is_named n ms

abbrev pub fresh : List StepName → List StepName → List StepName
fresh recorded [] = []
fresh recorded (n ∷ ns) =
    let rest = fresh recorded ns in if is_named n recorded then rest else n ∷ rest

is_recorded-names :
    (n : StepName) (steps : List Step) → is_recorded n steps ≡ is_named n (names steps)
is_recorded-names n [] = refl
is_recorded-names n (s ∷ steps) = ap (λ b. rank s.name == rank n || b) (is_recorded-names n steps)

skips-names :
    (steps : List Step) (ns : List StepName) → names (skips steps ns) ≡ fresh (names steps) ns
skips-names steps [] = refl
skips-names steps (n ∷ ns) = ground (arith, is_recorded-names n steps, skips-names steps ns)

pub append_skipped-names :
    (steps : List Step) (ns : List StepName)
    → names (append_skipped steps ns) ≡ names steps ++ fresh (names steps) ns
append_skipped-names steps ns =
    map-append steps _ ∙ ap (λ l. names steps ++ l) (skips-names steps ns)

-- a run that stops after `k` steps records all ten
pub stop-names :
    {A W : Type 0} (k : ℕ) (s : Session A W)
    → take k step_names ++ fresh (take k step_names) (drop k step_names) ≡ step_names
    → IsAt k s
    → names (append_skipped s.steps (drop k step_names)) ≡ step_names
stop-names k s all h =
    append_skipped-names s.steps (drop k step_names)
    ∙ ap (λ l. l ++ fresh l (drop k step_names)) h.has_names
    ∙ all
