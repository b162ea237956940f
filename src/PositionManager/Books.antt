-- ===== src/PositionManager/Books.antt =====
-- What holds in the whole life of a position.
use leverage_agnet.Common.{arith, sym, ap, ◌∙◌, ◌≤◌, ◌≡◌, ◌∷◌, List, refl, [], false}
use leverage_agnet.Common.Number.{Number}
use leverage_agnet.Common.Sums.{sum_from-append, sum_from}
use leverage_agnet.PositionManager.Dca.{
  check_dca_risk, check_dca_eligibility, apply_figures, apply_dca,
}
use leverage_agnet.PositionManager.Engine.{tick}
use leverage_agnet.PositionManager.Life.{
  dca_if_eligible, step, steps, booked, bookings, Operation, close_all, close_part, add_dca, set_sl,
  set_tp, set_tp_sl, to_breakeven, price_tick,
}
use leverage_agnet.PositionManager.Lifecycle.{partial_close, close_position}
use leverage_agnet.PositionManager.TpSl.{
  check_tp_sl, move_sl_to_breakeven, update_tp_and_sl, update_take_profit, update_stop_loss,
}
use leverage_agnet.PositionManager.Types.{max_dca_count, is_open, PositionState}

module _ {A : Type 0} (F : Number A) (fee_rate : A) where
  step-realized :
      (o : Operation A) (p : PositionState A)
      → (step F fee_rate o p).realized_pnl ≡ sum_from F p.realized_pnl (booked F fee_rate o p)
  unfolding step booked close_position partial_close apply_dca apply_figures check_dca_eligibility
      check_dca_risk dca_if_eligible update_stop_loss update_take_profit update_tp_and_sl
      move_sl_to_breakeven tick
  step-realized (close_all price reason now) p = ground arith
  step-realized (close_part price ratio) p = ground arith
  step-realized (add_dca direction entry risk atr account v) p = ground arith
  step-realized (set_sl sl) p = ground arith
  step-realized (set_tp tp) p = ground arith
  step-realized (set_tp_sl tp sl) p = ground arith
  step-realized (to_breakeven price) p = ground arith
  step-realized (price_tick price now) p = ground arith

  -- In the whole life of a position, its realized profit is what it was at first and the net
  -- profits that the closes reported, partial ones and those of ticks included, added in their
  -- order; no other call books anything.
  pub steps-realized :
      (os : List (Operation A)) (p : PositionState A)
      → (steps F fee_rate os p).realized_pnl ≡ sum_from F p.realized_pnl (bookings F fee_rate os p)
  unfolding steps bookings
  steps-realized [] p = refl
  steps-realized (o ∷ os) p =
      steps-realized os (step F fee_rate o p)
      ∙ ap (λ x. sum_from F x (bookings F fee_rate os (step F fee_rate o p))) (step-realized o p)
      ∙ sym (
          sum_from-append F (booked F fee_rate o p) (bookings F fee_rate os (step F fee_rate o p))
            p.realized_pnl)

  step-closed :
      (o : Operation A) (p : PositionState A)
      → is_open p ≡ false
      → (is_open (step F fee_rate o p) ≡ false)
        × ((step F fee_rate o p).realized_pnl ≡ p.realized_pnl)
        × ((step F fee_rate o p).close_reason ≡ p.close_reason)
        × ((step F fee_rate o p).closed_at ≡ p.closed_at)
  unfolding step close_position partial_close apply_dca apply_figures check_dca_eligibility
      check_dca_risk dca_if_eligible update_stop_loss update_take_profit update_tp_and_sl
      move_sl_to_breakeven tick check_tp_sl
  step-closed (close_all price reason now) p h = ground arith
  step-closed (close_part price ratio) p h = ground arith
  step-closed (add_dca direction entry risk atr account v) p h = ground arith
  step-closed (set_sl sl) p h = ground arith
  step-closed (set_tp tp) p h = ground arith
  step-closed (set_tp_sl tp sl) p h = ground arith
  step-closed (to_breakeven price) p h = ground arith
  step-closed (price_tick price now) p h = ground arith

  -- A closed position stays closed, with its profit, its reason and its time, whatever calls
  -- follow.
  pub steps-closed :
      (os : List (Operation A)) (p : PositionState A)
      → is_open p ≡ false
      → let p' = steps F fee_rate os p in
        (is_open p' ≡ false)
        × (p'.realized_pnl ≡ p.realized_pnl)
        × (p'.close_reason ≡ p.close_reason)
        × (p'.closed_at ≡ p.closed_at)
  unfolding steps
  steps-closed [] p h = (h, refl, refl, refl)
  steps-closed (o ∷ os) p h =
      let one = step-closed o p h in
      let rest = steps-closed os (step F fee_rate o p) one.0 in
      (rest.0, rest.1 ∙ one.1, rest.2 ∙ one.2, rest.3 ∙ one.3)

  step-dca_count :
      (o : Operation A) (p : PositionState A)
      → p.dca_count ≤ max_dca_count
      → (step F fee_rate o p).dca_count ≤ max_dca_count
  unfolding step close_position partial_close apply_dca apply_figures check_dca_eligibility
      check_dca_risk dca_if_eligible update_stop_loss update_take_profit update_tp_and_sl
      move_sl_to_breakeven tick
  step-dca_count (close_all price reason now) p h = ground arith
  step-dca_count (close_part price ratio) p h = ground arith
  step-dca_count (add_dca direction entry risk atr account v) p h = ground arith
  step-dca_count (set_sl sl) p h = ground arith
  step-dca_count (set_tp tp) p h = ground arith
  step-dca_count (set_tp_sl tp sl) p h = ground arith
  step-dca_count (to_breakeven price) p h = ground arith
  step-dca_count (price_tick price now) p h = ground arith

  -- A position that has been added to at most twice stays so, whatever calls follow, if each
  -- further addition has to pass the eligibility check.
  pub steps-dca_count :
      (os : List (Operation A)) (p : PositionState A)
      → p.dca_count ≤ max_dca_count
      → (steps F fee_rate os p).dca_count ≤ max_dca_count
  unfolding steps
  steps-dca_count [] p h = h
  steps-dca_count (o ∷ os) p h = steps-dca_count os (step F fee_rate o p) (step-dca_count o p h)
