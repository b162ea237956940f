-- ===== src/Safety/Failures.antt =====
-- The count of consecutive API failures, and the halt that it starts.
use leverage_agnet.Common.{
  ◌||◌, ◌+◌, ◌*◌, ◌<◌, ◌≡◌, refl, true, false, not, arith, if◌then◌else◌, List, [], ◌∷◌, some, leb,
  ltb, length, is_some,
}
use leverage_agnet.Common.Calendar.{Time, minute}
use leverage_agnet.Safety.Disconnect.{
  record_api_failure, record_api_success, check_disconnect, count_failure,
}
use leverage_agnet.Safety.Store.{StateStore, View, IsLawful}
use leverage_agnet.Safety.Types.{
  SafetyConfig, DisconnectState, new_disconnect, allow, block, critical, consecutive_api_failures,
}

-- the calls that report on the exchange or ask for it, each with its time
pub data Report : Type 0 where
  failure success check : Time → Report

-- Without a halt the counter stays below the threshold, and a halt has an end.
pub record Counts {A : Type 0} (config : SafetyConfig A) (d : DisconnectState) : Type 0 where
  pub below : (d.is_halted || ltb d.consecutive_failures config.api_failure_halt_threshold) ≡ true
  pub ends : (not d.is_halted || is_some d.halt_until) ≡ true

module _ {A S : Type 0} (st : StateStore A S) (config : SafetyConfig A) where
  unfoldable pub report : Report → S → S
  report (failure now) s = (record_api_failure st config now s).1
  report (success now) s = record_api_success st config now s
  report (check now) s = (check_disconnect st config now s).1

  unfoldable pub reports : List Report → S → S
  reports [] s = s
  reports (r ∷ rs) s = reports rs (report r s)

  -- failures alone
  unfoldable pub failures : List Time → S → S
  failures [] s = s
  failures (now ∷ ts) s = failures ts (record_api_failure st config now s).1

-- the end of a halt that starts at a time
abbrev pub halt_end : {A : Type 0} → SafetyConfig A → Time → Time
halt_end config now = now + config.api_failure_halt_minutes * minute

module _ {A S : Type 0} (st : StateStore A S) (config : SafetyConfig A) {view : S → View A}
    (law : IsLawful st view) where
  count_failure-Counts :
      (d : DisconnectState) (now : Time) (s : S)
      → d.is_halted ≡ false
      → Counts config (view (count_failure st config d now s).1).disconnect
  unfolding count_failure
  count_failure-Counts d now s free =
      let failed = record d {
        consecutive_failures = d.consecutive_failures + 1;
        last_failure_at = some now;
      } in
      let halted = record failed { is_halted = true; halt_until = some (halt_end config now) } in
      ground (arith, law.set_disconnect failed s, law.set_disconnect halted s)

  report-Counts :
      (r : Report) (s : S)
      → 0 < config.api_failure_halt_threshold
      → Counts config (view s).disconnect
      → Counts config (view (report st config r s)).disconnect
  unfolding report record_api_failure record_api_success check_disconnect
  report-Counts (failure now) s pos c = ground (
    arith,
    law.get_disconnect s,
    count_failure-Counts new_disconnect now s refl,
    count_failure-Counts (view s).disconnect now s,
  )
  report-Counts (success now) s pos c = ground (
    arith,
    law.get_disconnect s,
    law.set_disconnect new_disconnect s,
    law.set_disconnect (record (view s).disconnect { consecutive_failures = 0 }) s,
  )
  report-Counts (check now) s pos c =
      ground (arith, law.get_disconnect s, law.set_disconnect new_disconnect s)

  -- In every history of reports the counter stays below the threshold while there is no halt, and
  -- every halt has an end, if the threshold is not 0 and it was so before.
  pub reports-Counts :
      (rs : List Report) (s : S)
      → 0 < config.api_failure_halt_threshold
      → Counts config (view s).disconnect
      → Counts config (view (reports st config rs s)).disconnect
  unfolding reports
  reports-Counts [] s pos c = c
  reports-Counts (r ∷ rs) s pos c =
      reports-Counts rs (report st config r s) pos (report-Counts r s pos c)

  failure_counted :
      (now : Time) (s : S)
      → (view s).disconnect.is_halted ≡ false
      → (view s).disconnect.consecutive_failures + 1 < config.api_failure_halt_threshold
      → let d = (view (record_api_failure st config now s).1).disconnect in
        (d.is_halted ≡ false)
        × (d.consecutive_failures ≡ (view s).disconnect.consecutive_failures + 1)
  unfolding record_api_failure count_failure
  failure_counted now s free low = ground (
    arith,
    law.get_disconnect s,
    law.set_disconnect
        (record (view s).disconnect {
          consecutive_failures = (view s).disconnect.consecutive_failures + 1;
          last_failure_at = some now;
        })
        s,
  )

  failures_counted :
      (ts : List Time) (s : S)
      → (view s).disconnect.is_halted ≡ false
      → (view s).disconnect.consecutive_failures + length ts < config.api_failure_halt_threshold
      → let d = (view (failures st config ts s)).disconnect in
        (d.is_halted ≡ false)
        × (d.consecutive_failures ≡ (view s).disconnect.consecutive_failures + length ts)
  unfolding failures
  failures_counted [] s free low = (free, omega arith)
  failures_counted (now ∷ ts) s free low =
      let one = failure_counted now s free (omega arith) in
      let rest =
        failures_counted ts (record_api_failure st config now s).1 one.0 (omega (arith, one)) in
      (rest.0, omega (arith, one, rest))

  last_failure_halts :
      (now later : Time) (s : S)
      → (view s).disconnect.is_halted ≡ false
      → (view s).disconnect.consecutive_failures + 1 ≡ config.api_failure_halt_threshold
      → let s' = (record_api_failure st config now s).1 in
        (check_disconnect st config later s').0 ≡ (
          if leb (halt_end config now) later
          then allow
          else block consecutive_api_failures critical)
  unfolding record_api_failure count_failure check_disconnect
  last_failure_halts now later s free full =
      let failed = record (view s).disconnect {
        consecutive_failures = (view s).disconnect.consecutive_failures + 1;
        last_failure_at = some now;
      } in
      let halted = record failed { is_halted = true; halt_until = some (halt_end config now) } in
      let s' = st.set_disconnect_state halted s in
      ground (arith, law.get_disconnect s, law.set_disconnect halted s, law.get_disconnect s')

  after_success :
      (t₀ : Time) (s : S)
      → (view s).disconnect.is_halted ≡ false
      → let d = (view (record_api_success st config t₀ s)).disconnect in
        (d.is_halted ≡ false) × (d.consecutive_failures ≡ 0)
  unfolding record_api_success
  after_success t₀ s free = ground (
    arith,
    law.get_disconnect s,
    law.set_disconnect (record (view s).disconnect { consecutive_failures = 0 }) s,
  )

  -- After a success outside a halt, fewer failures in a row than the threshold start no halt, and
  -- the one that reaches it blocks the exchange for the configured minutes and no longer.
  pub failures_after_success :
      (t₀ now later : Time) (ts : List Time) (s : S)
      → (view s).disconnect.is_halted ≡ false
      → length ts + 1 ≡ config.api_failure_halt_threshold
      → let s₁ = failures st config ts (record_api_success st config t₀ s) in
        let s₂ = (record_api_failure st config now s₁).1 in
        ((view s₁).disconnect.is_halted ≡ false)
        × ((check_disconnect st config later s₂).0 ≡ (
            if leb (halt_end config now) later
            then allow
            else block consecutive_api_failures critical))
  failures_after_success t₀ now later ts s free full =
      let s₀ = record_api_success st config t₀ s in
      let zero_count = after_success t₀ s free in
      let counted = failures_counted ts s₀ zero_count.0 (omega (arith, zero_count)) in
      (
        counted.0,
        last_failure_halts now later (failures st config ts s₀) counted.0
            (omega (arith, zero_count, counted)),
      )
