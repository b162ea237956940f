-- ===== src/Safety/Drawdown.antt =====
-- backend/app/safety/drawdown.py: `DrawdownProtection`.
use leverage_agnet.Common.{true, false, not, ◌&&◌, ◌||◌, if◌then◌else◌}
use leverage_agnet.Common.Number
use leverage_agnet.Common.Number.{Number}
use leverage_agnet.Safety.Store.{StateStore}
use leverage_agnet.Safety.Types.{
  UserId, SafetyConfig, SafetyCheckResult, DrawdownState, allow, allow_with_warning, block,
  drawdown_protection, critical,
}

module _ {A S : Type 0} (F : Number A) (st : StateStore A S) (config : SafetyConfig A) where
  -- the state with the balance recorded, and the peak raised to it where it is a new one
  abbrev pub track_peak : DrawdownState A → A → DrawdownState A
  track_peak state balance =
      if F.leb state.peak_balance (Number.nil F) || F.ltb state.peak_balance balance
      then record state { peak_balance = balance; current_balance = balance; warning_sent = false }
      else record state { current_balance = balance }

  -- `(peak - current) / peak`
  abbrev pub drawdown_pct : DrawdownState A → A
  drawdown_pct state = F.div (F.sub state.peak_balance state.current_balance) state.peak_balance

  unfoldable pub update_balance : UserId → A → S → SafetyCheckResult × S
  update_balance user_id balance s =
      let state = st.get_drawdown_state user_id s in
      if state.is_halted
      then (
        block drawdown_protection critical,
        st.set_drawdown_state user_id (record state { current_balance = balance }) s,
      )
      else let state' = track_peak state balance in
        if F.leb state'.peak_balance (Number.nil F)
        then (allow, st.set_drawdown_state user_id state' s)
        else if F.leb config.drawdown_halt_pct (drawdown_pct state')
        then (
          block drawdown_protection critical,
          st.set_drawdown_state user_id (record state' { is_halted = true }) s,
        )
        else if F.leb config.drawdown_warning_pct (drawdown_pct state') && not state'.warning_sent
        then (
          allow_with_warning,
          st.set_drawdown_state user_id (record state' { warning_sent = true }) s,
        )
        else (allow, st.set_drawdown_state user_id state' s)

  unfoldable pub check_drawdown : UserId → S → SafetyCheckResult
  check_drawdown user_id s =
      if not (st.get_drawdown_state user_id s).is_halted
      then allow
      else block drawdown_protection critical

  unfoldable pub resume : UserId → S → S
  resume user_id s =
      let state = st.get_drawdown_state user_id s in
      st.set_drawdown_state user_id
        (record state {
          is_halted = false;
          warning_sent = false;
          peak_balance = state.current_balance;
        })
        s
