-- ===== src/Safety/Disconnect.antt =====
-- backend/app/safety/disconnect.py: `ExchangeDisconnectProtection`.
use leverage_agnet.Common.{
  ◌+◌, ◌*◌, Bool, true, false, not, ◌&&◌, Option, none, some, leb, if◌then◌else◌,
}
use leverage_agnet.Common.Calendar.{Time, minute}
use leverage_agnet.Safety.Store.{StateStore}
use leverage_agnet.Safety.Types.{
  SafetyConfig, SafetyCheckResult, DisconnectState, new_disconnect, allow, allow_with_warning,
  block, consecutive_api_failures, critical,
}

-- `halt_until and now >= halt_until`
abbrev pub has_expired : Option Time → Time → Bool
has_expired none now = false
has_expired (some t) now = leb t now

module _ {A S : Type 0} (st : StateStore A S) (config : SafetyConfig A) where
  -- the branch of a failure that is counted
  unfoldable pub count_failure : DisconnectState → Time → S → SafetyCheckResult × S
  count_failure state now s =
      let failed = record state {
        consecutive_failures = state.consecutive_failures + 1;
        last_failure_at = some now;
      } in
      if leb config.api_failure_halt_threshold failed.consecutive_failures
      then (
        block consecutive_api_failures critical,
        st.set_disconnect_state
            (record failed {
              is_halted = true;
              halt_until = some (now + config.api_failure_halt_minutes * minute);
            })
            s,
      )
      else (allow_with_warning, st.set_disconnect_state failed s)

  unfoldable pub record_api_failure : Time → S → SafetyCheckResult × S
  unfolding count_failure
  record_api_failure now s =
      let state = st.get_disconnect_state s in
      if state.is_halted && has_expired state.halt_until now
      then count_failure new_disconnect now s
      else if state.is_halted
      then (block consecutive_api_failures critical, s)
      else count_failure state now s

  unfoldable pub record_api_success : Time → S → S
  record_api_success now s =
      let state = st.get_disconnect_state s in
      if state.is_halted && has_expired state.halt_until now
      then st.set_disconnect_state new_disconnect s
      else if state.is_halted
      then s
      else st.set_disconnect_state (record state { consecutive_failures = 0 }) s

  unfoldable pub check_disconnect : Time → S → SafetyCheckResult × S
  check_disconnect now s =
      let state = st.get_disconnect_state s in
      if not state.is_halted
      then (allow, s)
      else if has_expired state.halt_until now
      then (allow, st.set_disconnect_state new_disconnect s)
      else (block consecutive_api_failures critical, s)
