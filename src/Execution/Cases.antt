-- ===== src/Execution/Cases.antt =====
-- The ways through `execute`: a refusal, the paper mode, or orders after every guard has passed.
use leverage_agnet.Common.{
  ◌⊎◌, arith, not, ◌&&◌, or_else, if_cases, ◌≡◌, refl, Bool, true, false, Option, none, some,
  Option-cases, inl, inr,
}
use leverage_agnet.Common.Number.{Number}
use leverage_agnet.Trading.{
  TradeCandidate, RawSignal, shadow_strategy_forbidden, safety_gate_blocked, Code, ValidationResult,
  system_error,
}
use leverage_agnet.Safety.Types.{UserId}
use leverage_agnet.Execution.Engine.{
  order_of, is_fast_exit, execute_legacy, execute_with, after_checks, execute, execute_validated,
  Config,
}
use leverage_agnet.Execution.Orders.{submit, protect, place_all, after_decision, ask_gate}
use leverage_agnet.Execution.Tickets.{
  of_candidate, safe, unsafe, local_execution_safety, of_raw, Safety, Order, Checked,
  build_entry_ticket,
}
use leverage_agnet.Execution.Types.{
  paper, ExecutionRequest, Mode, FilledOrder, SafetyDecision, ExecutionResult, Services, Run,
  refused,
}

-- the gate's answer to the user, at a state of the world; without a gate nobody is stopped
abbrev pub answer : Option SafetyDecision → Bool
answer none = false
answer (some d) = d.allowed

abbrev pub gate_allows :
    {W : Type 0} → Option (UserId → W → Option SafetyDecision × W) → UserId → W → Bool
gate_allows none u w = true
gate_allows (some check) u w = answer (check u w).0

module _ {A W : Type 0} (svc : Services A W) (Q : ExecutionResult A × Run A W → Type 0) where
  pub place_all_cases :
      (mode : Mode) (v : ValidationResult A) (o : Order A) (c : Checked A) (r : Run A W)
      → let r₁ = (submit svc (build_entry_ticket o c.quantity) r).1 in
        Q (refused mode (some system_error) none, r₁)
        → ((f : FilledOrder A)
            → (submit svc (build_entry_ticket o c.quantity) r).0 ≡ some f
            → Q (protect svc mode v o c f r₁))
        → Q (place_all svc mode v o c r)
  unfolding place_all
  place_all_cases mode v o c r raised filled =
      elim (Option-cases (submit svc (build_entry_ticket o c.quantity) r).0) [
        | inl e ↦ rw (e, place_all) raised
        | inr (f, e) ↦ rw (e, place_all) (filled f e)
      ]

  after_decision_cases :
      (mode : Mode) (v : ValidationResult A) (o : Order A) (c : Checked A) (r : Run A W)
      (d : Option SafetyDecision)
      → ((code : Code) → Q (refused mode (some code) none, r))
      → (answer d ≡ true → Q (place_all svc mode v o c r))
      → Q (after_decision svc mode v o c r d)
  unfolding after_decision
  after_decision_cases mode v o c r none stop go = stop system_error
  after_decision_cases mode v o c r (some d) stop go =
      if_cases Q d.allowed _ _ go (λ _. stop (or_else d.rejection_code safety_gate_blocked))

  pub ask_gate_cases :
      (u : UserId) (mode : Mode) (v : ValidationResult A) (o : Order A) (c : Checked A)
      (r : Run A W) (gate : Option (UserId → W → Option SafetyDecision × W))
      → ((code : Code) (w : W) → Q (refused mode (some code) none, record r { world = w }))
      → ((w : W)
          → gate_allows gate u r.world ≡ true
          → Q (place_all svc mode v o c (record r { world = w })))
      → Q (ask_gate svc u mode v o c r gate)
  unfolding ask_gate
  ask_gate_cases u mode v o c r none stop go = go r.world refl
  ask_gate_cases u mode v o c r (some check) stop go =
      let (d, w) = check u r.world in
      after_decision_cases mode v o c (record r { world = w }) d (λ code. stop code w) (λ h. go w h)

-- the world that the gate is asked in: the run's, or the one that the validator has left
abbrev pub IsReached : {A W : Type 0} → Services A W → ExecutionRequest A → Run A W → W → Type 0
IsReached svc req r w = (w ≡ r.world) ⊎ (w ≡ (svc.validate req r.world).1)

-- the request's candidate, or else its signal
abbrev pub requested_order : {A : Type 0} → RawSignal A → Option (TradeCandidate A) → Order A
requested_order s none = of_raw s
requested_order s (some c) = of_candidate c

-- where the validation and the order come from: the request brings the one and names the other, or
-- the validator answers and the order is the request's signal
abbrev pub IsSource :
    {A W : Type 0}
    → Services A W
    → ExecutionRequest A
    → Run A W
    → ValidationResult A
    → Order A
    → Type 0
IsSource svc req r v o =
    ((req.approved_validation ≡ some v) × (o ≡ requested_order req.signal req.candidate))
    ⊎ ((req.approved_validation ≡ none)
        × ((svc.validate req r.world).0 ≡ some v)
        × (o ≡ of_raw req.signal))

module _ {A W : Type 0} (F : Number A) (svc : Services A W) (config : Config)
    (Q : ExecutionResult A × Run A W → Type 0) where
  -- what is proved of the three ways through `execute` for a request and a run
  pub record Ways (req : ExecutionRequest A) (r : Run A W) : Type 0 where
    pub refuses :
        (mode : Mode) (code : Option Code) (v : Option (ValidationResult A)) (w : W)
        → Q (refused mode code v, record r { world = w })
    pub simulates :
        (v : ValidationResult A) (w : W)
        → config.live_trading_enabled ≡ false
        → Q (record (refused paper none (some v)) { approved = true }, record r { world = w })
    pub orders :
        (v : ValidationResult A) (o : Order A) (c : Checked A) (w w' : W)
        → IsReached svc req r w
        → IsSource svc req r v o
        → config.live_trading_enabled ≡ true
        → is_fast_exit req.strategy_version ≡ false
        → v.approved ≡ true
        → local_execution_safety F req v o ≡ safe c
        → gate_allows svc.safety_gate req.user_id w ≡ true
        → Q (place_all svc config.mode v o c (record r { world = w' }))

  after_checks_cases :
      (req : ExecutionRequest A) (v : ValidationResult A) (o : Order A) (r : Run A W) (w : W)
      (checked : Safety A)
      → Ways req r
      → IsReached svc req r w
      → IsSource svc req r v o
      → (config.live_trading_enabled && is_fast_exit req.strategy_version) ≡ false
      → v.approved ≡ true
      → local_execution_safety F req v o ≡ checked
      → Q (after_checks F svc config req v o (record r { world = w }) checked)
  unfolding after_checks
  after_checks_cases req v o r w (unsafe code) ways reached source slow ok e =
      ways.refuses config.mode code (some v) w
  after_checks_cases req v o r w (safe c) ways reached source slow ok e =
      if_cases Q (not config.live_trading_enabled) _ _ (λ h. ways.simulates v w (ground arith))
        (λ h.
          ask_gate_cases svc Q req.user_id config.mode v o c (record r { world = w })
            svc.safety_gate (λ code w'. ways.refuses config.mode (some code) none w')
            (λ w' allowed.
              ways.orders v o c w w' reached source (ground arith) (ground arith) ok e allowed))

  execute_validated_cases :
      (req : ExecutionRequest A) (v : ValidationResult A) (o : Order A) (r : Run A W) (w : W)
      → Ways req r
      → IsReached svc req r w
      → IsSource svc req r v o
      → (config.live_trading_enabled && is_fast_exit req.strategy_version) ≡ false
      → Q (execute_validated F svc config req v o (record r { world = w }))
  unfolding execute_validated
  execute_validated_cases req v o r w ways reached source slow =
      if_cases Q (not v.approved) _ _ (λ h. ways.refuses config.mode v.rejection_code (some v) w)
        (λ h.
          after_checks_cases req v o r w (local_execution_safety F req v o) ways reached source slow
            (ground arith) refl)

  execute_legacy_cases :
      (req : ExecutionRequest A) (r : Run A W) (w : W) (v : Option (ValidationResult A))
      → Ways req r
      → IsReached svc req r w
      → req.approved_validation ≡ none
      → (svc.validate req r.world).0 ≡ v
      → (config.live_trading_enabled && is_fast_exit req.strategy_version) ≡ false
      → Q (execute_legacy F svc config req (record r { world = w }) v)
  unfolding execute_legacy
  execute_legacy_cases req r w none ways reached bare answered slow =
      ways.refuses config.mode (some system_error) none w
  execute_legacy_cases req r w (some v) ways reached bare answered slow =
      execute_validated_cases req v (of_raw req.signal) r w ways reached
        (inr (bare, answered, refl)) slow

  order_of_lem :
      (s : RawSignal A) (c : Option (TradeCandidate A))
      → order_of F svc config s c ≡ requested_order s c
  order_of_lem s none = refl
  order_of_lem s (some c) = refl

  execute_with_cases :
      (req : ExecutionRequest A) (r : Run A W) (v : Option (ValidationResult A))
      → req.approved_validation ≡ v
      → Ways req r
      → (config.live_trading_enabled && is_fast_exit req.strategy_version) ≡ false
      → Q (execute_with F svc config req r v)
  unfolding execute_with
  execute_with_cases req r (some v) brought ways slow =
      execute_validated_cases req v (order_of F svc config req.signal req.candidate) r r.world ways
        (inl refl) (inl (brought, order_of_lem req.signal req.candidate)) slow
  execute_with_cases req r none bare ways slow =
      let (validation, w) = svc.validate req r.world in
      execute_legacy_cases req r w validation ways (inr refl) bare refl slow

  pub execute_cases :
      (req : ExecutionRequest A) (r : Run A W) → Ways req r → Q (execute F svc config req r)
  unfolding execute
  execute_cases req r ways =
      if_cases Q (config.live_trading_enabled && is_fast_exit req.strategy_version) _ _
        (λ _. ways.refuses config.mode (some shadow_strategy_forbidden) none r.world)
        (λ slow. execute_with_cases req r req.approved_validation refl ways slow)
