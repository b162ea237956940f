-- ===== src/Safety/Peak.antt =====
-- The peak that `DrawdownProtection` tracks.
use leverage_agnet.Common.{◌≡◌, true, false, not, arith}
use leverage_agnet.Common.Number
use leverage_agnet.Common.Number.{Number, IsOrdered}
use leverage_agnet.Safety.Drawdown.{update_balance, resume, track_peak}
use leverage_agnet.Safety.Store.{StateStore, View, IsLawful}
use leverage_agnet.Safety.Types.{SafetyConfig, UserId}

module _ {A S : Type 0} (F : Number A) (ord : IsOrdered F) (st : StateStore A S)
    (config : SafetyConfig A) {view : S → View A} (law : IsLawful st view) (u : UserId) where
  -- After every balance that leaves trading not halted, the recorded balance is at most the peak.
  pub update_balance-IsBelowPeak :
      (b : A) (s : S)
      → let d' = (view (update_balance F st config u b s).1).drawdown u in
        d'.is_halted ≡ false → F.leb d'.current_balance d'.peak_balance ≡ true
  unfolding update_balance
  update_balance-IsBelowPeak b s free =
      let d = (view s).drawdown u in
      let d' = track_peak F st config d b in
      ground (
        arith,
        ord.leb_refl b,
        ord.ltb_not d.peak_balance b,
        law.get_drawdown u s,
        law.set_drawdown u d' s,
        law.set_drawdown u (record d { current_balance = b }) s,
        law.set_drawdown u (record d' { is_halted = true }) s,
        law.set_drawdown u (record d' { warning_sent = true }) s,
      )

  -- After a manual resume at a balance above 0, a next balance that is no higher is refused
  -- exactly if it has fallen from the one at the resume by the halt fraction or more.
  pub resume_then_balance :
      (b : A) (s : S)
      → let c = ((view s).drawdown u).current_balance in
        F.leb c (Number.nil F) ≡ false
        → F.leb b c ≡ true
        → (update_balance F st config u b (resume F st config u s)).0.allowed
          ≡ not (F.leb config.drawdown_halt_pct (F.div (F.sub c b) c))
  unfolding resume update_balance
  resume_then_balance b s positive lower =
      let d = (view s).drawdown u in
      let r = record d {
        is_halted = false;
        warning_sent = false;
        peak_balance = d.current_balance;
      } in
      ground (
        arith,
        ord.ltb_not d.current_balance b,
        law.get_drawdown u s,
        law.set_drawdown u r s,
        law.get_drawdown u (st.set_drawdown_state u r s),
      )
