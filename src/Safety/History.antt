-- ===== src/Safety/History.antt =====
-- A history of calls of the gate, in any order and with any arguments: what no call but the manual
-- one lifts.
mod Frames
mod Keeps
pub mod Emergency
pub mod Drawdown
pub mod Daily
use leverage_agnet.Common.{
  ℕ, ◌≡◌, refl, sym, ◌∙◌, ap, Bool, true, false, not, ◌&&◌, arith, if◌then◌else◌, Bool-cases, inl,
  inr, ◌≢◌, List, [], ◌∷◌, All,
}
use leverage_agnet.Common.Calendar.{Time}
use leverage_agnet.Common.Number.{Number}
use leverage_agnet.Safety.Gate.{
  Readings, check_order_allowed, on_trade_closed, on_api_failure, on_api_success, trigger_emergency,
  deactivate_emergency, resume_drawdown, reset_daily_switch, reset_weekly_switch,
}
use leverage_agnet.Safety.Store.{StateStore, View, IsLawful}
use leverage_agnet.Safety.Types.{UserId, Activator, SafetyConfig}

-- the calls that change the state of the gate
pub data Call (A : Type 0) : Type 0 where
  order : UserId → Readings → Call A
  trade_closed : UserId → A → A → A → A → Time → Time → Call A
  api_failure api_success : Time → Call A
  emergency : ℕ → Activator → Time → Call A
  lift_emergency : Call A
  lift_drawdown lift_daily lift_weekly : UserId → Call A

module _ {A S : Type 0} (F : Number A) (st : StateStore A S) (config : SafetyConfig A) where
  unfoldable pub step : Call A → S → S
  step (order u at) s = (check_order_allowed F st config u at s).1
  step (trade_closed u pnl day_start week_start balance t₁ t₂) s =
      (on_trade_closed F st config u pnl day_start week_start balance t₁ t₂ s).1
  step (api_failure now) s = (on_api_failure F st config now s).1
  step (api_success now) s = on_api_success F st config now s
  step (emergency reason by now) s = trigger_emergency F st config reason by now s
  step lift_emergency s = deactivate_emergency F st config s
  step (lift_drawdown u) s = resume_drawdown F st config u s
  step (lift_daily u) s = reset_daily_switch F st config u s
  step (lift_weekly u) s = reset_weekly_switch F st config u s

  unfoldable pub run : List (Call A) → S → S
  run [] s = s
  run (c ∷ cs) s = run cs (step c s)

-- every call of the list passes the test
abbrev pub AllCalls : {A : Type 0} → (Call A → Bool) → List (Call A) → Type 0
AllCalls test cs = All (λ c. test c ≡ true) cs

-- An invariant of every call that passes the test is one of every history of such calls.
pub run-invariant :
    {A S : Type 0} (F : Number A) (st : StateStore A S) (config : SafetyConfig A) (Q : S → Type 0)
    (test : Call A → Bool)
    → ((c : Call A) (s : S) → test c ≡ true → Q s → Q (step F st config c s))
    → (cs : List (Call A)) (s : S) → AllCalls test cs
    → Q s
    → Q (run F st config cs s)
unfolding run
run-invariant F st config Q test keep [] s h q = q
run-invariant F st config Q test keep (c ∷ cs) s h q =
    run-invariant F st config Q test keep cs (step F st config c s) h.1 (keep c s h.0 q)
