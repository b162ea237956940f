-- ===== src/Safety/History/Keeps.antt =====
-- A property of the store that every write of a call keeps is kept by the call.
use leverage_agnet.Common.{ℕ, ◌≡◌, true, Bool}
use leverage_agnet.Common.Calendar.{Time}
use leverage_agnet.Common.Number.{Number}
use leverage_agnet.Safety.Drawdown.{update_balance}
use leverage_agnet.Safety.Gate.{Readings}
use leverage_agnet.Safety.History.{
  Call, order, trade_closed, api_failure, api_success, emergency, lift_emergency, lift_drawdown,
  lift_daily, lift_weekly, step,
}
use leverage_agnet.Safety.History.Frames.{
  record_loss_cases, check_loss_cases, check_disconnect_cases, record_api_failure_cases,
  record_api_success_cases, check_order_allowed_keeps, on_trade_closed_keeps,
}
use leverage_agnet.Safety.KillSwitch.{daily, weekly, check_loss, record_loss, reset_loss}
use leverage_agnet.Safety.Store.{StateStore}
use leverage_agnet.Safety.Types.{SafetyConfig, UserId, Activator, DisconnectState, KillSwitchState}

module _ {A S : Type 0} (F : Number A) (st : StateStore A S) (config : SafetyConfig A) where
  -- `test` picks the calls; the writes of disconnect and weekly states are kept at any value.
  pub record Keeps (test : Call A → Bool) (Q : S → Type 0) : Type 0 where
    pub disconnect : (d : DisconnectState) (s : S) → Q s → Q (st.set_disconnect_state d s)
    pub weekly_state :
        (u : UserId) (k : KillSwitchState A) (s : S) → Q s → Q (st.set_weekly_kill_switch u k s)
    pub order_daily :
        (u : UserId) (at : Readings) (s : S)
        → test (order u at) ≡ true
        → Q s
        → Q (check_loss F (daily F st config) u at.at_daily s).1
    pub closed_daily :
        (u : UserId) (pnl day_start week_start balance loss : A) (t₁ t₂ : Time) (s : S)
        → test (trade_closed u pnl day_start week_start balance t₁ t₂) ≡ true
        → Q s
        → Q (record_loss F (daily F st config) u loss day_start t₁ s).1
    pub closed_balance :
        (u : UserId) (balance : A) (s : S) → Q s → Q (update_balance F st config u balance s).1
    pub by_emergency :
        (reason : ℕ) (by : Activator) (now : Time) (s : S)
        → Q s
        → Q (step F st config (emergency reason by now) s)
    pub by_lift_emergency :
        (s : S) → test lift_emergency ≡ true → Q s → Q (step F st config lift_emergency s)
    pub by_lift_drawdown :
        (u : UserId) (s : S)
        → test (lift_drawdown u) ≡ true
        → Q s
        → Q (step F st config (lift_drawdown u) s)
    pub by_lift_daily :
        (u : UserId) (s : S)
        → test (lift_daily u) ≡ true
        → Q s
        → Q (step F st config (lift_daily u) s)

  pub step-Keeps :
      {test : Call A → Bool} {Q : S → Type 0}
      → Keeps test Q
      → (c : Call A) (s : S) → test c ≡ true
      → Q s
      → Q (step F st config c s)
  unfolding step reset_loss
  step-Keeps {Q = Q} k (order u at) s e q =
      check_order_allowed_keeps F st config Q u at s
        (λ s q. check_disconnect_cases st config Q at.at_disconnect s q (λ d. k.disconnect d s q))
        (λ s q. k.order_daily u at s e q)
        (λ s q.
          check_loss_cases F (weekly F st config) u at.at_weekly s Q q
            (λ w. k.weekly_state u w s q))
        q
  step-Keeps {Q = Q} k (trade_closed u pnl day_start week_start balance t₁ t₂) s e q =
      on_trade_closed_keeps F st config Q u pnl day_start week_start balance t₁ t₂ s
        (λ loss s q. k.closed_daily u pnl day_start week_start balance loss t₁ t₂ s e q)
        (λ loss s q.
          record_loss_cases Q F (weekly F st config) u loss week_start t₂ s q
            (λ w. k.weekly_state u w s q))
        (λ s q. k.closed_balance u balance s q) q
  step-Keeps {Q = Q} k (api_failure now) s e q =
      record_api_failure_cases st config Q now s q (λ d. k.disconnect d s q)
  step-Keeps {Q = Q} k (api_success now) s e q =
      record_api_success_cases st config Q now s q (λ d. k.disconnect d s q)
  step-Keeps k (emergency reason by now) s e q = k.by_emergency reason by now s q
  step-Keeps k lift_emergency s e q = k.by_lift_emergency s e q
  step-Keeps k (lift_drawdown u) s e q = k.by_lift_drawdown u s e q
  step-Keeps k (lift_daily u) s e q = k.by_lift_daily u s e q
  step-Keeps k (lift_weekly u) s e q = k.weekly_state u _ s q
