-- ===== src/Safety/Losses.antt =====
-- How `record_loss` and `check` of a kill switch work together, for either period.
use leverage_agnet.Common.{
  ◌≡◌, refl, true, false, not, ◌&&◌, arith, if◌then◌else◌, List, [], ◌∷◌, some, leb,
}
use leverage_agnet.Common.Calendar.{Time}
use leverage_agnet.Common.Number.{Number}
use leverage_agnet.Safety.KillSwitch.{
  Period, record_loss, check_loss, still_runs, loss_ratio, with_loss, base_state,
}
use leverage_agnet.Safety.Types.{UserId, KillSwitchState, block, allow, critical}

-- The user's state in the period's part of the store is the one last written.
abbrev pub Reads : {A S : Type 0} → Period A S → UserId → Type 0
Reads {A} {S} p u = (k : KillSwitchState A) (s : S) → p.get u (p.set u k s) ≡ k

-- the losses added one by one to a sum
abbrev pub total : {A : Type 0} → Number A → A → List (A × Time) → A
total F acc [] = acc
total F acc ((loss, _) ∷ ls) = total F (F.add acc loss) ls

module _ {A S : Type 0} (F : Number A) (p : Period A S) (u : UserId) where
  -- a run of losses on one day, each with its time
  unfoldable pub record_losses : List (A × Time) → A → S → S
  record_losses [] start s = s
  record_losses ((loss, now) ∷ ls) start s =
      record_losses ls start (record_loss F p u loss start now s).1

  -- every loss of the run was let through
  abbrev pub AllAllowed : List (A × Time) → A → S → Type 0
  AllAllowed [] start s = Unit
  AllAllowed ((loss, now) ∷ ls) start s =
      ((record_loss F p u loss start now s).0.allowed ≡ true)
      × AllAllowed ls start (record_loss F p u loss start now s).1

  -- While no halt runs, a loss is refused exactly if the sum of the losses, this one included,
  -- reaches the limit.
  pub record_loss-limit :
      (loss start : A) (now : Time) (s : S)
      → ((p.get u s).is_halted && still_runs (p.get u s).halt_until now) ≡ false
      → let k = with_loss F loss start (base_state F u now (p.get u s)) in
        (record_loss F p u loss start now s).0.allowed
        ≡ not (F.leb p.halt_pct (loss_ratio F k.current_loss_usdt (F.mul start p.limit_pct)))
  unfolding record_loss
  record_loss-limit loss start now s free = ground arith

module _ {A S : Type 0} (F : Number A) (p : Period A S) (u : UserId) (reads : Reads p u) where
  -- On a store that returns what was last written for the user: a loss that is refused while no
  -- halt runs blocks the user up to the reset of the period that it falls in, and from that reset
  -- on the next check lets the user through.
  pub check_loss-record_loss :
      (loss start : A) (now later : Time) (s : S)
      → ((p.get u s).is_halted && still_runs (p.get u s).halt_until now) ≡ false
      → (record_loss F p u loss start now s).0.allowed ≡ false
      → let s' = (record_loss F p u loss start now s).1 in
        (check_loss F p u later s').0
        ≡ (if leb (p.next_reset now) later then allow else block p.reason critical)
  unfolding record_loss check_loss
  check_loss-record_loss loss start now later s free refused =
      let k = with_loss F loss start (base_state F u now (p.get u s)) in
      ground (
        arith,
        reads
            (record k {
              is_halted = true;
              halt_reason = some p.reason;
              halt_until = some (p.next_reset now);
            })
            s,
      )

  record_loss-allowed :
      (loss start : A) (now : Time) (s : S)
      → (p.get u s).is_halted ≡ false
      → (record_loss F p u loss start now s).0.allowed ≡ true
      → p.get u (record_loss F p u loss start now s).1 ≡ with_loss F loss start (p.get u s)
  unfolding record_loss
  record_loss-allowed loss start now s free ok =
      ground (arith, reads (with_loss F loss start (p.get u s)) s)

  -- On a store that returns what was last written for the user, who is not halted at first: as
  -- long as no loss of a run is refused, the state holds the sum of the losses, added in their
  -- order to what it held, and the user is not halted.
  pub record_losses-total :
      (ls : List (A × Time)) (start : A) (s : S)
      → (p.get u s).is_halted ≡ false
      → AllAllowed F p u ls start s
      → let k = p.get u (record_losses F p u ls start s) in
        (k.current_loss_usdt ≡ total F (p.get u s).current_loss_usdt ls) × (k.is_halted ≡ false)
  unfolding record_losses
  record_losses-total [] start s free h = (refl, free)
  record_losses-total ((loss, now) ∷ ls) start s free h =
      let e = record_loss-allowed loss start now s free h.0 in
      ground (
        arith,
        e,
        record_losses-total ls start (record_loss F p u loss start now s).1 (ground (arith, e)) h.1,
      )
