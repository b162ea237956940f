-- ===== src/Safety/History/Drawdown.antt =====
-- A drawdown halt holds until it is lifted by hand for that user.
use leverage_agnet.Common.{◌≡◌, Bool, true, false, not, arith, List, ◌==◌}
use leverage_agnet.Common.Number.{Number}
use leverage_agnet.Safety.Drawdown.{update_balance, track_peak, resume}
use leverage_agnet.Safety.Emergency.{activate, deactivate}
use leverage_agnet.Safety.Gate.{Readings, check_order_allowed}
use leverage_agnet.Safety.History.{Call, lift_drawdown, step, run, AllCalls, run-invariant}
use leverage_agnet.Safety.History.Frames.{record_loss_cases, check_loss_cases}
use leverage_agnet.Safety.History.Keeps.{Keeps, step-Keeps}
use leverage_agnet.Safety.KillSwitch.{daily, reset_loss}
use leverage_agnet.Safety.Order.{check_order_allowed-verdict}
use leverage_agnet.Safety.Store.{StateStore, View, IsLawful}
use leverage_agnet.Safety.Types.{SafetyConfig, UserId}

abbrev pub keeps_drawdown : {A : Type 0} → UserId → Call A → Bool
keeps_drawdown u (lift_drawdown v) = not (u == v)
keeps_drawdown u _ = true

module _ {A S : Type 0} (F : Number A) (st : StateStore A S) (config : SafetyConfig A)
    {view : S → View A} (law : IsLawful st view) where
  abbrev IsHalted : UserId → S → Type 0
  IsHalted u s = ((view s).drawdown u).is_halted ≡ true

  update_balance-IsHalted :
      (u v : UserId) (balance : A) (s : S)
      → IsHalted u s
      → IsHalted u (update_balance F st config v balance s).1
  unfolding update_balance
  update_balance-IsHalted u v balance s h =
      let state = st.get_drawdown_state v s in
      let state' = track_peak F st config state balance in
      ground (
        arith,
        law.get_drawdown v s,
        law.set_drawdown v state' s,
        law.set_drawdown v (record state { current_balance = balance }) s,
        law.set_drawdown v (record state' { is_halted = true }) s,
        law.set_drawdown v (record state' { warning_sent = true }) s,
      )

  -- a balance that is refused leaves the user halted
  update_balance_halts :
      (u : UserId) (balance : A) (s : S)
      → (update_balance F st config u balance s).0.allowed ≡ false
      → IsHalted u (update_balance F st config u balance s).1
  unfolding update_balance
  update_balance_halts u balance s h =
      let state = st.get_drawdown_state u s in
      let state' = track_peak F st config state balance in
      ground (
        arith,
        law.set_drawdown u (record state { current_balance = balance }) s,
        law.set_drawdown u (record state' { is_halted = true }) s,
      )

  IsHalted-Keeps : (u : UserId) → Keeps F st config (keeps_drawdown u) (IsHalted u)
  unfolding step activate deactivate resume reset_loss
  IsHalted-Keeps u = record {
    disconnect = λ d s h. rw (law.set_disconnect d s) h;
    weekly_state = λ v k s h. rw (law.set_weekly v k s) h;
    order_daily = λ v at s _ h.
        check_loss_cases F (daily F st config) v at.at_daily s (IsHalted u) h
          (λ k. rw (law.set_daily v k s) h);
    closed_daily = λ v _ start _ _ loss t _ s _ h.
        record_loss_cases (IsHalted u) F (daily F st config) v loss start t s h
          (λ k. rw (law.set_daily v k s) h);
    closed_balance = λ v balance s h. update_balance-IsHalted u v balance s h;
    by_emergency = λ reason by now s h. rw (law.set_emergency _ s) h;
    by_lift_emergency = λ s _ h. rw (law.set_emergency _ s) h;
    by_lift_drawdown = λ v s e h. rw (law.set_drawdown v _ s) (ground arith);
    by_lift_daily = λ v s _ h. rw (law.set_daily v _ s) h;
  }

  -- Once a balance has been refused for its drawdown, the user's orders are not allowed, whatever
  -- calls of the gate come between, as long as none of them lifts that user's drawdown halt.
  pub drawdown_blocks_orders :
      (u : UserId) (balance : A) (cs : List (Call A)) (at : Readings) (s : S)
      → (update_balance F st config u balance s).0.allowed ≡ false
      → AllCalls (keeps_drawdown u) cs
      → let s' = run F st config cs (update_balance F st config u balance s).1 in
        (check_order_allowed F st config u at s').0.allowed ≡ false
  drawdown_blocks_orders u balance cs at s refused h =
      let s₁ = (update_balance F st config u balance s).1 in
      let halted =
        run-invariant F st config (IsHalted u) (keeps_drawdown u)
          (step-Keeps F st config (IsHalted-Keeps u)) cs s₁ h
          (update_balance_halts u balance s refused) in
      ground
        (arith, halted, check_order_allowed-verdict F st config law u at (run F st config cs s₁))
