-- ===== src/Risk/Approvals.antt =====
-- The case rules for the steps of the risk engine: what holds of every refusal and of the last
-- step's results holds of the engine's.
use leverage_agnet.Redis.{of_option, pure, ◌>>◌, Client, Io}
use leverage_agnet.Redis.Yields.{Yields-bind, Yields-if, Yields}
use leverage_agnet.Risk.Candidate.{unless_code, reject_candidate}
use leverage_agnet.Risk.Engine.{warning_list, check_losses, Losses, caught, unless}
use leverage_agnet.Risk.KillSwitch.{
  consecutive_losses, weekly_loss_limit, halt_trading, daily_loss_limit, HaltTrigger,
}
use leverage_agnet.Risk.Settings.{first_refusal}
use leverage_agnet.Risk.Types.{UserContext}
use leverage_agnet.Risk.Validators.{
  check_consecutive_losses, check_weekly_loss_limit, check_daily_loss_limit,
}
use leverage_agnet.Common.{
  leb, ℕ, ◌∷◌, [], ◌++◌, Option, arith, All, List, Bool, refl, some, none, not, ◌≡◌, false, true,
}
use leverage_agnet.Common.Calendar.{Time}
use leverage_agnet.Common.Number.{Number}
use leverage_agnet.Trading.{
  consec_loss, weekly_loss, order_001, Warning, refusal, Code, ValidationResult, system_error,
}

pub not-false : (b : Bool) → not b ≡ false → b ≡ true
not-false b h = ground arith

pub not-true : (b : Bool) → not b ≡ true → b ≡ false
not-true b h = ground arith

pub first_refusal-none :
    (tests : List (Bool × Code)) → first_refusal tests ≡ none → All (λ t. t.0 ≡ false) tests
first_refusal-none [] h = tt
first_refusal-none ((b, code) ∷ rest) h =
    (ground (arith, h), first_refusal-none rest (ground (arith, h)))

pub All-split :
    {X : Type 0} (P : X → Type 0) (xs ys : List X) → All P (xs ++ ys) → All P xs × All P ys
All-split P [] ys h = (tt, h)
All-split P (x ∷ xs) ys h = ((h.0, (All-split P xs ys h.1).0), (All-split P xs ys h.1).1)

module _ {A R : Type 0} (P : ValidationResult A → Type 0) where
  pub unless_code-Yields :
      (o : Option Code) (w : List Warning) (next : Io R (ValidationResult A)) (r : R)
      → ((code : Code) → P (reject_candidate code w))
      → (o ≡ none → Yields P (next r).0)
      → Yields P (unless_code o w next r).0
  unless_code-Yields none w next r refused h = h refl
  unless_code-Yields (some code) w next r refused h = refused code

  pub unless-Yields :
      (o : Option (ValidationResult A)) (next : Io R (ValidationResult A)) (r : R)
      → ((v : ValidationResult A) → o ≡ some v → P v)
      → (o ≡ none → Yields P (next r).0)
      → Yields P (unless o next r).0
  unless-Yields none next r refused h = h refl
  unless-Yields (some v) next r refused h = refused v refl

  pub of_option-Yields :
      (o : Option (ValidationResult A)) (r : R)
      → ((v : ValidationResult A) → o ≡ some v → P v)
      → Yields P (of_option {R = R} o r).0
  of_option-Yields none r h = tt
  of_option-Yields (some v) r h = h v refl

  -- a call that raises is refused as well
  pub caught-cases :
      (x : Option (ValidationResult A) × R)
      → P (refusal system_error [] [])
      → Yields P x.0
      → P (caught x).0
  caught-cases (none, r) raised h = raised
  caught-cases (some v, r) raised h = h

-- what the loss checks have shown when they go on
pub record IsWithinLosses {A : Type 0} (F : Number A) (daily_limit projected : A)
    (losses : Losses A) : Type 0 where
  pub daily : (check_daily_loss_limit F losses.daily_loss_usdt daily_limit projected).0 ≡ true
  pub weekly : check_weekly_loss_limit F losses.weekly_loss_usdt losses.weekly_limit_usdt ≡ true

module _ {A R : Type 0} (F : Number A) (redis : Client A R) (P : ValidationResult A → Type 0)
    (ctx : UserContext A) (daily_limit projected : A) (losses : Losses A) (reason : ℕ) (now : Time)
    (refuse : Code → List Warning → ValidationResult A)
    (admit : List Warning → Io R (ValidationResult A)) where
  after_halt :
      (trigger : HaltTrigger) (code : Code) (w : List Warning) (r : R)
      → P (refuse code w)
      → Yields P ((halt_trading redis ctx.user_id trigger reason now >> pure (refuse code w)) r).0
  after_halt trigger code w r h =
      Yields-bind P (halt_trading redis ctx.user_id trigger reason now) (λ _. pure (refuse code w))
        r (λ _ _. h)

  pub check_losses-Yields :
      ((code : Code) (w : List Warning) → P (refuse code w))
      → (IsWithinLosses F daily_limit projected losses
          → (w : List Warning) (r : R) → Yields P (admit w r).0)
      → (r : R)
      → Yields P (check_losses F redis ctx daily_limit projected losses reason now refuse admit r).0
  unfolding check_losses
  check_losses-Yields refused h r =
      let w =
        warning_list (check_daily_loss_limit F losses.daily_loss_usdt daily_limit projected).1 in
      Yields-if P _ _ _ r (λ _. after_halt daily_loss_limit order_001 w r (refused _ _))
        λ daily.
          Yields-if P _ _ _ r (λ _. after_halt weekly_loss_limit weekly_loss w r (refused _ _))
            λ weekly.
              Yields-bind P
                (check_consecutive_losses redis ctx.user_id losses.consecutive_losses now) _ r
                λ ok r'.
                  Yields-if P ok _ _ r'
                    (λ _.
                      h (record { daily = not-false _ daily; weekly = not-false _ weekly }) w r')
                    λ _.
                      Yields-if P (leb 5 losses.consecutive_losses) _ _ r'
                        (λ _. after_halt consecutive_losses consec_loss w r' (refused _ _))
                        (λ _. refused consec_loss w)
