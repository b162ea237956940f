-- ===== src/Safety/History/Frames.antt =====
-- Which parts of the store each method writes.
use leverage_agnet.Common.{◌+◌, ◌*◌, true, arith, if◌then◌else◌, some}
use leverage_agnet.Common.Calendar.{Time, minute}
use leverage_agnet.Common.Number
use leverage_agnet.Common.Number.{Number}
use leverage_agnet.Safety.Disconnect.{
  record_api_failure, record_api_success, count_failure, check_disconnect,
}
use leverage_agnet.Safety.Drawdown.{update_balance, track_peak}
use leverage_agnet.Safety.Gate.{Readings, check_order_allowed, on_trade_closed}
use leverage_agnet.Safety.KillSwitch.{
  daily, weekly, Period, check_loss, record_loss, with_loss, base_state,
}
use leverage_agnet.Safety.Store.{StateStore}
use leverage_agnet.Safety.Types.{
  UserId, SafetyConfig, KillSwitchState, DisconnectState, DrawdownState, new_kill_switch,
  new_disconnect,
}

-- A property of the store that holds as it is, and after every write of the user's state, holds
-- after a loss is recorded.
pub record_loss_cases :
    {A S : Type 0} (Q : S → Type 0) (F : Number A) (p : Period A S) (u : UserId) (loss start : A)
    (now : Time) (s : S)
    → Q s
    → ((k : KillSwitchState A) → Q (p.set u k s))
    → Q (record_loss F p u loss start now s).1
unfolding record_loss
record_loss_cases Q F p u loss start now s same write =
    let state = p.get u s in
    let state' = with_loss F loss start (base_state F u now state) in
    let halted = record state' {
      is_halted = true;
      halt_reason = some p.reason;
      halt_until = some (p.next_reset now);
    } in
    ground (arith, same, write state', write halted)

pub update_balance_cases :
    {A S : Type 0} (Q : S → Type 0) (F : Number A) (st : StateStore A S) (config : SafetyConfig A)
    (u : UserId) (balance : A) (s : S)
    → ((d : DrawdownState A) → Q (st.set_drawdown_state u d s))
    → Q (update_balance F st config u balance s).1
unfolding update_balance
update_balance_cases Q F st config u balance s write =
    let state = st.get_drawdown_state u s in
    let state' = track_peak F st config state balance in
    ground (
      arith,
      write state',
      write (record state { current_balance = balance }),
      write (record state' { is_halted = true }),
      write (record state' { warning_sent = true }),
    )

module _ {A S : Type 0} (F : Number A) (p : Period A S) (u : UserId) (now : Time) (s : S) where
  pub check_loss_cases :
      (Q : S → Type 0)
      → Q s
      → ((k : KillSwitchState A) → Q (p.set u k s))
      → Q (check_loss F p u now s).1
  unfolding check_loss
  check_loss_cases Q same write = ground (arith, same, write (new_kill_switch F u))

module _ {A S : Type 0} (st : StateStore A S) (config : SafetyConfig A) (Q : S → Type 0) where
  pub check_disconnect_cases :
      (now : Time) (s : S)
      → Q s
      → ((d : DisconnectState) → Q (st.set_disconnect_state d s))
      → Q (check_disconnect st config now s).1
  unfolding check_disconnect
  check_disconnect_cases now s same write = ground (arith, same, write new_disconnect)

  count_failure_cases :
      (d : DisconnectState) (now : Time) (s : S)
      → ((d : DisconnectState) → Q (st.set_disconnect_state d s))
      → Q (count_failure st config d now s).1
  unfolding count_failure
  count_failure_cases d now s write =
      let failed = record d {
        consecutive_failures = d.consecutive_failures + 1;
        last_failure_at = some now;
      } in
      ground (
        arith,
        write failed,
        write (record failed {
          is_halted = true;
          halt_until = some (now + config.api_failure_halt_minutes * minute);
        }),
      )

  pub record_api_failure_cases :
      (now : Time) (s : S)
      → Q s
      → ((d : DisconnectState) → Q (st.set_disconnect_state d s))
      → Q (record_api_failure st config now s).1
  unfolding record_api_failure
  record_api_failure_cases now s same write = ground (
    arith,
    same,
    count_failure_cases new_disconnect now s write,
    count_failure_cases (st.get_disconnect_state s) now s write,
  )

  pub record_api_success_cases :
      (now : Time) (s : S)
      → Q s
      → ((d : DisconnectState) → Q (st.set_disconnect_state d s))
      → Q (record_api_success st config now s)
  unfolding record_api_success
  record_api_success_cases now s same write = ground (
    arith,
    same,
    write new_disconnect,
    write (record (st.get_disconnect_state s) { consecutive_failures = 0 }),
  )

-- The gate's two compound calls keep what each of their steps keeps.
module _ {A S : Type 0} (F : Number A) (st : StateStore A S) (config : SafetyConfig A)
    (Q : S → Type 0) where
  pub check_order_allowed_keeps :
      (u : UserId) (at : Readings) (s : S)
      → ((s : S) → Q s → Q (check_disconnect st config at.at_disconnect s).1)
      → ((s : S) → Q s → Q (check_loss F (daily F st config) u at.at_daily s).1)
      → ((s : S) → Q s → Q (check_loss F (weekly F st config) u at.at_weekly s).1)
      → Q s
      → Q (check_order_allowed F st config u at s).1
  unfolding check_order_allowed
  check_order_allowed_keeps u at s by_disconnect by_daily by_weekly q =
      let s₁ = (check_disconnect st config at.at_disconnect s).1 in
      let s₂ = (check_loss F (daily F st config) u at.at_daily s₁).1 in
      ground (arith, q, by_disconnect s q, by_daily s₁, by_weekly s₂)

  pub on_trade_closed_keeps :
      (u : UserId) (pnl day_start week_start balance : A) (t₁ t₂ : Time) (s : S)
      → ((loss : A) (s : S) → Q s → Q (record_loss F (daily F st config) u loss day_start t₁ s).1)
      → ((loss : A) (s : S) → Q s → Q (record_loss F (weekly F st config) u loss week_start t₂ s).1)
      → ((s : S) → Q s → Q (update_balance F st config u balance s).1)
      → Q s
      → Q (on_trade_closed F st config u pnl day_start week_start balance t₁ t₂ s).1
  unfolding on_trade_closed
  on_trade_closed_keeps u pnl day_start week_start balance t₁ t₂ s by_daily by_weekly by_balance q =
      let loss = if F.ltb pnl (Number.nil F) then Number.abs F pnl else Number.nil F in
      let s₁ = (record_loss F (daily F st config) u loss day_start t₁ s).1 in
      let s₂ = (record_loss F (weekly F st config) u loss week_start t₂ s₁).1 in
      ground (arith, q, by_daily loss s q, by_weekly loss s₁, by_balance s₂, by_balance s q)
