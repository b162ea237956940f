-- ===== src/Risk/Stops.antt =====
-- What the engine answers while trading is stopped, and when Redis fails.
use leverage_agnet.Redis.{
  Client, Value, Key, IsReliable, Io, ◌>>=◌, global_kill_switch, user_kill_switch,
}
use leverage_agnet.Redis.Yields.{returns, and_then-pure}
use leverage_agnet.Risk.Candidate.{
  reject_candidate, activate_kill_switch, candidate_steps, validate_candidate,
}
use leverage_agnet.Risk.Engine.{reject_with, validate_steps, validate, Losses, caught}
use leverage_agnet.Risk.Halts.{halted_view, check_kill_switch_lem}
use leverage_agnet.Risk.KillSwitch.{halt_trading, manual, activation, activate_user, emergency_stop}
use leverage_agnet.Risk.Settings.{RiskConfig, FundingContext}
use leverage_agnet.Risk.Types.{HaltState, OpenPosition, AccountState, UserContext}
use leverage_agnet.Risk.Validators.{check_kill_switch}
use leverage_agnet.Common.{arith, ◌∙◌, [], ℕ, Option, refl, some, none, ◌≡◌, false}
use leverage_agnet.Common.Calendar.{Time}
use leverage_agnet.Common.Number.{Number}
use leverage_agnet.Trading.{
  RawSignal, TradeCandidate, refusal, ValidationResult, MarketRegime, kill_switch, system_error,
}
use leverage_agnet.Safety.Types.{UserId}

-- A call that raises ends the run of calls.
raises :
    {R B C : Type 0} (m : Io R B) (f : B → Io R C) (r : R) → (m r).0 ≡ none → ((m >>= f) r).0 ≡ none
raises m f r h = rw h refl

caught-raised :
    {A R : Type 0} (x : Option (ValidationResult A) × R)
    → x.0 ≡ none
    → (caught x).0 ≡ refusal system_error [] []
caught-raised (none, r) h = refl
caught-raised (some v, r) h = cc

module _ {A R : Type 0} (F : Number A) (redis : Client A R) (ctx : UserContext A)
    (account : AccountState A) (losses : Losses A) (open_count : ℕ)
    (same_coin : Option OpenPosition) (reason : ℕ) (now : Time) (r : R) where
  validate-stopped :
      (signal : RawSignal A)
      → (check_kill_switch redis ctx.user_id now r ≡ (some false, r))
      → validate F redis signal ctx account losses open_count same_coin reason now r
        ≡ (reject_with kill_switch, r)
  unfolding validate validate_steps
  validate-stopped signal h = rw h refl

  validate_candidate-stopped :
      (c : TradeCandidate A) (regime : Option MarketRegime) (funding : Option (FundingContext A))
      (config : Option (RiskConfig A))
      → (check_kill_switch redis ctx.user_id now r ≡ (some false, r))
      → validate_candidate F redis c ctx account losses open_count same_coin regime funding config
          reason now r
        ≡ (reject_candidate kill_switch [], r)
  unfolding validate_candidate candidate_steps
  validate_candidate-stopped c regime funding config h = rw h refl

  -- If the first question to Redis raises, both validations refuse with SYSTEM_ERROR.
  pub validations_fail_closed :
      (signal : RawSignal A) (c : TradeCandidate A) (regime : Option MarketRegime)
      (funding : Option (FundingContext A)) (config : Option (RiskConfig A))
      → (redis.exists global_kill_switch now r).0 ≡ none
      → ((validate F redis signal ctx account losses open_count same_coin reason now r).0
          ≡ refusal system_error [] [])
        × ((validate_candidate F redis c ctx account losses open_count same_coin regime funding
              config reason now r).0
            ≡ refusal system_error [] [])
  unfolding validate validate_steps validate_candidate candidate_steps check_kill_switch
  validations_fail_closed signal c regime funding config h =
      let e = raises (redis.exists global_kill_switch now) _ r h in
      (
        caught-raised _ (raises (check_kill_switch redis ctx.user_id now) _ r e),
        caught-raised _ (raises (check_kill_switch redis ctx.user_id now) _ r e),
      )

module _ {A R : Type 0} (F : Number A) (redis : Client A R)
    (view : R → Time → Key → Option (Value A)) (ok : IsReliable redis view) (u : UserId)
    (reason : ℕ) (now : Time) (r : R) where
  activate-view :
      (t : Time)
      → view (activate_kill_switch redis u reason now r).1 t (user_kill_switch u)
        ≡ some (activation reason now)
  unfolding activate_kill_switch emergency_stop activate_user
  activate-view t =
      let set = redis.set (user_kill_switch u) (activation reason now) none now in
      let halt = halt_trading redis u manual reason now in
      let r' = (set r).1 in
      rw (returns set r tt (ok.set_returns (user_kill_switch u) (activation reason now) none now r))
        (rw (and_then-pure {B = HaltState A} (halt r').0 (halt r').1 tt) (
          rw (halted_view redis view ok u manual reason now r' t (user_kill_switch u)) (
            rw
              (ok.set_lem (user_kill_switch u) (activation reason now) none now r t
                (user_kill_switch u))
              (ground arith))))

  activate-stops :
      (t : Time)
      → check_kill_switch redis u t (activate_kill_switch redis u reason now r).1
        ≡ (some false, (activate_kill_switch redis u reason now r).1)
  activate-stops t =
      let r' = (activate_kill_switch redis u reason now r).1 in
      check_kill_switch_lem redis view ok u t r' ∙ rw (activate-view t) (ground arith)

  module _ (ctx : UserContext A) (account : AccountState A) (losses : Losses A) (open_count : ℕ)
      (same_coin : Option OpenPosition) (t : Time) (signal : RawSignal A) (c : TradeCandidate A)
      (regime : Option MarketRegime) (funding : Option (FundingContext A))
      (config : Option (RiskConfig A)) (of_user : ctx.user_id ≡ u) where
    -- After an operator's stop of a user, both validations refuse everything of the user at any
    -- time, and leave the store as it is.
    pub activate_kill_switch-refuses :
        let r' = (activate_kill_switch redis u reason now r).1 in
        (validate F redis signal ctx account losses open_count same_coin reason t r'
          ≡ (reject_with kill_switch, r'))
        × (validate_candidate F redis c ctx account losses open_count same_coin regime funding
              config reason t r'
            ≡ (reject_candidate kill_switch [], r'))
    activate_kill_switch-refuses =
        let r' = (activate_kill_switch redis u reason now r).1 in
        let h : check_kill_switch redis ctx.user_id t r' ≡ (some false, r') =
          rw of_user (activate-stops t) in
        (
          validate-stopped F redis ctx account losses open_count same_coin reason t r' signal h,
          validate_candidate-stopped F redis ctx account losses open_count same_coin reason t r' c
              regime funding config h,
        )
