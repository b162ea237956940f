-- ===== src/Safety/Emergency.antt =====
-- backend/app/safety/emergency.py: `EmergencyShutdown`. The clock's reading is an argument.
use leverage_agnet.Common.{ℕ, Bool, true, some, if◌then◌else◌}
use leverage_agnet.Common.Calendar.{Time}
use leverage_agnet.Safety.Store.{StateStore}
use leverage_agnet.Safety.Types.{
  Activator, new_emergency, SafetyCheckResult, allow, block, emergency_shutdown, critical,
}

module _ {A S : Type 0} (st : StateStore A S) where
  unfoldable pub activate : ℕ → Activator → Time → S → S
  activate reason activated_by now s =
      st.set_emergency_state
        (record {
          is_active = true;
          activated_at = some now;
          activated_by = some activated_by;
          reason = reason;
          requires_manual_resume = true;
        })
        s

  unfoldable pub check_emergency : S → SafetyCheckResult
  check_emergency s =
      if (st.get_emergency_state s).is_active then block emergency_shutdown critical else allow

  unfoldable pub deactivate : S → S
  deactivate s = st.set_emergency_state new_emergency s

  unfoldable pub is_active : S → Bool
  is_active s = (st.get_emergency_state s).is_active
