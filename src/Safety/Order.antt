-- ===== src/Safety/Order.antt =====
-- What `SafetyGate.check_order_allowed` decides, and that what it writes lifts no running halt.
use leverage_agnet.Common.{◌≡◌, not, arith, if◌then◌else◌}
use leverage_agnet.Common.Number.{Number}
use leverage_agnet.Safety.Checks.{
  disconnect_blocks, loss_blocks, check_loss_result, check_emergency_result,
  check_disconnect_result, check_disconnect_frame, check_drawdown_result, check_daily_frame,
  check_weekly_frame,
}
use leverage_agnet.Safety.Disconnect.{check_disconnect}
use leverage_agnet.Safety.Gate.{Readings, check_order_allowed}
use leverage_agnet.Safety.KillSwitch.{check_loss, daily, weekly}
use leverage_agnet.Safety.Store.{StateStore, View, IsLawful}
use leverage_agnet.Safety.Types.{
  UserId, SafetyConfig, SafetyCheckResult, allow, block, info, critical, live_trading_disabled,
  daily_loss_limit, weekly_loss_limit, drawdown_protection, emergency_shutdown,
  consecutive_api_failures,
}

-- The documented order of the checks, read off the values in the store.
abbrev pub verdict : {A : Type 0} → SafetyConfig A → View A → UserId → Readings → SafetyCheckResult
verdict config v u at =
    if not config.live_trading_enabled
    then block live_trading_disabled info
    else if v.emergency.is_active
    then block emergency_shutdown critical
    else if disconnect_blocks v.disconnect at.at_disconnect
    then block consecutive_api_failures critical
    else if loss_blocks (v.daily u) at.at_daily
    then block daily_loss_limit critical
    else if loss_blocks (v.weekly u) at.at_weekly
    then block weekly_loss_limit critical
    else if (v.drawdown u).is_halted
    then block drawdown_protection critical
    else allow

module _ {A S : Type 0} (F : Number A) (st : StateStore A S) (config : SafetyConfig A)
    {view : S → View A} (law : IsLawful st view) where
  -- The gate's answer is the first failing check's, in the documented order, and depends on the
  -- store only through the five values that it holds for the user and for the system.
  pub check_order_allowed-verdict :
      (u : UserId) (at : Readings) (s : S)
      → (check_order_allowed F st config u at s).0 ≡ verdict config (view s) u at
  unfolding check_order_allowed
  check_order_allowed-verdict u at s =
      let s₁ = (check_disconnect st config at.at_disconnect s).1 in
      let s₂ = (check_loss F (daily F st config) u at.at_daily s₁).1 in
      let s₃ = (check_loss F (weekly F st config) u at.at_weekly s₂).1 in
      ground (
        arith,
        check_emergency_result st config law s,
        check_disconnect_result st config law at.at_disconnect s,
        check_disconnect_frame st config law at.at_disconnect s,
        check_loss_result F (daily F st config) u at.at_daily s₁,
        check_daily_frame st config law F u at.at_daily s₁,
        check_loss_result F (weekly F st config) u at.at_weekly s₂,
        check_weekly_frame st config law F u at.at_weekly s₂,
        check_drawdown_result st config law F u s₃,
        law.get_daily u s₁,
        law.get_weekly u s₂,
      )
