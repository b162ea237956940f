-- ===== src/Safety/History/Emergency.antt =====
-- An emergency stop holds until it is lifted by hand.
use leverage_agnet.Common.{ℕ, ◌≡◌, refl, Bool, true, false, arith, List}
use leverage_agnet.Common.Calendar.{Time}
use leverage_agnet.Common.Number.{Number}
use leverage_agnet.Safety.Drawdown.{resume}
use leverage_agnet.Safety.Emergency.{activate}
use leverage_agnet.Safety.Gate.{Readings, check_order_allowed}
use leverage_agnet.Safety.History.{
  Call, emergency, lift_emergency, step, run, AllCalls, run-invariant,
}
use leverage_agnet.Safety.History.Frames.{record_loss_cases, update_balance_cases, check_loss_cases}
use leverage_agnet.Safety.History.Keeps.{Keeps, step-Keeps}
use leverage_agnet.Safety.KillSwitch.{daily, reset_loss}
use leverage_agnet.Safety.Order.{check_order_allowed-verdict}
use leverage_agnet.Safety.Store.{StateStore, View, IsLawful}
use leverage_agnet.Safety.Types.{SafetyConfig, UserId, Activator}

abbrev pub keeps_emergency : {A : Type 0} → Call A → Bool
keeps_emergency lift_emergency = false
keeps_emergency _ = true

module _ {A S : Type 0} (F : Number A) (st : StateStore A S) (config : SafetyConfig A)
    {view : S → View A} (law : IsLawful st view) where
  abbrev IsStopped : S → Type 0
  IsStopped s = (view s).emergency.is_active ≡ true

  emergency-IsStopped :
      (reason : ℕ) (by : Activator) (now : Time) (s : S)
      → IsStopped (step F st config (emergency reason by now) s)
  unfolding step activate
  emergency-IsStopped reason by now s = rw (law.set_emergency _ s) refl

  IsStopped-Keeps : Keeps F st config keeps_emergency IsStopped
  unfolding step resume reset_loss
  IsStopped-Keeps = record {
    disconnect = λ d s h. rw (law.set_disconnect d s) h;
    weekly_state = λ u k s h. rw (law.set_weekly u k s) h;
    order_daily = λ u at s _ h.
        check_loss_cases F (daily F st config) u at.at_daily s IsStopped h
          (λ k. rw (law.set_daily u k s) h);
    closed_daily = λ u _ start _ _ loss t _ s _ h.
        record_loss_cases IsStopped F (daily F st config) u loss start t s h
          (λ k. rw (law.set_daily u k s) h);
    closed_balance = λ u balance s h.
        update_balance_cases IsStopped F st config u balance s (λ d. rw (law.set_drawdown u d s) h);
    by_emergency = λ reason by now s _. emergency-IsStopped reason by now s;
    by_lift_emergency = λ s e h. cc;
    by_lift_drawdown = λ u s _ h. rw (law.set_drawdown u _ s) h;
    by_lift_daily = λ u s _ h. rw (law.set_daily u _ s) h;
  }

  -- After an emergency stop no order is allowed, whatever calls of the gate come between, in any
  -- order and at any times, as long as none of them lifts the stop.
  pub emergency_blocks_orders :
      (reason : ℕ) (by : Activator) (now : Time) (cs : List (Call A)) (u : UserId) (at : Readings)
      (s : S)
      → AllCalls keeps_emergency cs
      → let s' = run F st config cs (step F st config (emergency reason by now) s) in
        (check_order_allowed F st config u at s').0.allowed ≡ false
  emergency_blocks_orders reason by now cs u at s h =
      let s₁ = step F st config (emergency reason by now) s in
      let stopped =
        run-invariant F st config IsStopped keeps_emergency (step-Keeps F st config IsStopped-Keeps)
          cs s₁ h (emergency-IsStopped reason by now s) in
      ground
        (arith, stopped, check_order_allowed-verdict F st config law u at (run F st config cs s₁))
