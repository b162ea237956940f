-- ===== src/Safety/Checks.antt =====
-- What each check of the gate answers, as a function of what the store holds, and which parts of
-- the store it leaves alone.
use leverage_agnet.Common.{◌≡◌, Bool, not, ◌&&◌, arith, if◌then◌else◌}
use leverage_agnet.Common.Calendar.{Time}
use leverage_agnet.Common.Number.{Number}
use leverage_agnet.Safety.Disconnect.{has_expired, check_disconnect}
use leverage_agnet.Safety.Drawdown.{check_drawdown}
use leverage_agnet.Safety.Emergency.{check_emergency}
use leverage_agnet.Safety.KillSwitch.{Period, check_loss, daily, weekly}
use leverage_agnet.Safety.Store.{StateStore, View, IsLawful}
use leverage_agnet.Safety.Types.{
  UserId, SafetyConfig, DisconnectState, KillSwitchState, allow, block, critical,
  consecutive_api_failures, new_kill_switch, emergency_shutdown, drawdown_protection,
  new_disconnect,
}

-- a halt that is on and has not run out
abbrev pub disconnect_blocks : DisconnectState → Time → Bool
disconnect_blocks d now = d.is_halted && not (has_expired d.halt_until now)

abbrev pub loss_blocks : {A : Type 0} → KillSwitchState A → Time → Bool
loss_blocks k now = k.is_halted && not (has_expired k.halt_until now)

module _ {A S : Type 0} (F : Number A) (p : Period A S) (u : UserId) (now : Time) (s : S) where
  pub check_loss_result :
      (check_loss F p u now s).0
      ≡ (if loss_blocks (p.get u s) now then block p.reason critical else allow)
  unfolding check_loss
  check_loss_result = ground arith

module _ {A S : Type 0} (st : StateStore A S) (config : SafetyConfig A) {view : S → View A}
    (law : IsLawful st view) where
  pub check_emergency_result :
      (s : S)
      → check_emergency st s
        ≡ (if (view s).emergency.is_active then block emergency_shutdown critical else allow)
  unfolding check_emergency
  check_emergency_result s = rw (law.get_emergency s)

  pub check_disconnect_result :
      (now : Time) (s : S)
      → (check_disconnect st config now s).0 ≡ (
          if disconnect_blocks (view s).disconnect now
          then block consecutive_api_failures critical
          else allow)
  unfolding check_disconnect
  check_disconnect_result now s = ground (arith, law.get_disconnect s)

  -- only the disconnect state changes
  pub check_disconnect_frame :
      (now : Time) (s : S)
      → view (check_disconnect st config now s).1
        ≡ record (view s) { disconnect = (view (check_disconnect st config now s).1).disconnect }
  unfolding check_disconnect
  check_disconnect_frame now s = ground (arith, law.set_disconnect new_disconnect s)

  pub check_drawdown_result :
      (F : Number A) (u : UserId) (s : S)
      → check_drawdown F st config u s
        ≡ (if ((view s).drawdown u).is_halted then block drawdown_protection critical else allow)
  unfolding check_drawdown
  check_drawdown_result F u s = ground (arith, law.get_drawdown u s)

  -- only the daily states change
  pub check_daily_frame :
      (F : Number A) (u : UserId) (now : Time) (s : S)
      → let s' = (check_loss F (daily F st config) u now s).1 in
        view s' ≡ record (view s) { daily = (view s').daily }
  unfolding check_loss
  check_daily_frame F u now s = ground (arith, law.set_daily u (new_kill_switch F u) s)

  -- only the weekly states change
  pub check_weekly_frame :
      (F : Number A) (u : UserId) (now : Time) (s : S)
      → let s' = (check_loss F (weekly F st config) u now s).1 in
        view s' ≡ record (view s) { weekly = (view s').weekly }
  unfolding check_loss
  check_weekly_frame F u now s = ground (arith, law.set_weekly u (new_kill_switch F u) s)
