-- ===== src/PositionManager/Life.antt =====
-- A position's life: calls of the engine in any order. A call that raises changes nothing.
use leverage_agnet.Common.{◌++◌, ◌∷◌, List, [], some, none, Option, String}
use leverage_agnet.Common.Calendar.{Time}
use leverage_agnet.Common.Number.{Number}
use leverage_agnet.Trading.{ValidationResult, Action}
use leverage_agnet.PositionManager.Dca.{apply_dca, check_dca_eligibility}
use leverage_agnet.PositionManager.Engine.{tick}
use leverage_agnet.PositionManager.Lifecycle.{partial_close, close_position}
use leverage_agnet.PositionManager.TpSl.{
  move_sl_to_breakeven, update_tp_and_sl, update_take_profit, update_stop_loss,
}
use leverage_agnet.PositionManager.Types.{
  eligible, value_error, DcaReason, AccountStats, TickResult, PositionState, raises, ok, Result,
  TpSlUpdate, CloseResult, DcaResult,
}

pub data Operation (A : Type 0) : Type 0 where
  close_all : A → String → Time → Operation A
  close_part : (price ratio : A) → Operation A
  add_dca : Action → (entry risk atr : A) → AccountStats A → ValidationResult A → Operation A
  set_sl set_tp : A → Operation A
  set_tp_sl : Option A → Option A → Operation A
  to_breakeven : A → Operation A
  price_tick : A → Time → Operation A

module _ {A : Type 0} where
  abbrev pub after_result :
      {B : Type 0} → PositionState A → (B → PositionState A) → Result B → PositionState A
  after_result p field (ok r) = field r
  after_result p field (raises f) = p

  abbrev pub after_move : PositionState A → Option (TpSlUpdate A) → PositionState A
  after_move p none = p
  after_move p (some u) = u.position

  -- the profits that a call reports
  abbrev pub booked_close : Result (CloseResult A) → List A
  booked_close (ok r) = r.net_pnl ∷ []
  booked_close (raises f) = []

  abbrev pub booked_tick : Result (TickResult A) → List A
  booked_tick (raises f) = []
  booked_tick (ok t) = elim t.close_result [ none ↦ [] | some r ↦ r.net_pnl ∷ [] ]

module _ {A : Type 0} (F : Number A) (fee_rate : A) where
  abbrev pub apply_eligible :
      PositionState A → A → ValidationResult A → Result DcaReason → Result (DcaResult A)
  apply_eligible p entry v (ok eligible) = apply_dca F fee_rate p entry v
  apply_eligible p entry v (ok _) = raises value_error
  apply_eligible p entry v (raises f) = raises f

  -- What a caller does that keeps to the docstring of `dca`: it calls `check_dca` first, and `dca`
  -- only if the position is eligible. No function of the source does this.
  unfoldable pub dca_if_eligible :
      PositionState A
      → Action
      → A
      → A
      → A
      → AccountStats A
      → ValidationResult A
      → Result (DcaResult A)
  dca_if_eligible p direction entry risk atr account v =
      apply_eligible p entry v (check_dca_eligibility F p direction entry risk atr account)

  unfoldable pub step : Operation A → PositionState A → PositionState A
  step (close_all price reason now) p =
      after_result p (λ (r : CloseResult A). r.position)
        (close_position F fee_rate p price reason now)
  step (close_part price ratio) p =
      after_result p (λ (r : CloseResult A). r.position) (partial_close F fee_rate p price ratio)
  step (add_dca direction entry risk atr account v) p =
      after_result p (λ (r : DcaResult A). r.position)
        (dca_if_eligible p direction entry risk atr account v)
  step (set_sl sl) p = after_result p (λ (u : TpSlUpdate A). u.position) (update_stop_loss F p sl)
  step (set_tp tp) p = after_result p (λ (u : TpSlUpdate A). u.position) (update_take_profit F p tp)
  step (set_tp_sl tp sl) p =
      after_result p (λ (u : TpSlUpdate A). u.position) (update_tp_and_sl F p tp sl)
  step (to_breakeven price) p =
      after_result p (after_move p) (move_sl_to_breakeven F fee_rate p price)
  step (price_tick price now) p =
      after_result p (λ (t : TickResult A). t.position) (tick F fee_rate p price now)

  unfoldable pub booked : Operation A → PositionState A → List A
  booked (close_all price reason now) p =
      booked_close (close_position F fee_rate p price reason now)
  booked (close_part price ratio) p = booked_close (partial_close F fee_rate p price ratio)
  booked (price_tick price now) p = booked_tick (tick F fee_rate p price now)
  booked _ p = []

  unfoldable pub steps : List (Operation A) → PositionState A → PositionState A
  steps [] p = p
  steps (o ∷ os) p = steps os (step o p)

  unfoldable pub bookings : List (Operation A) → PositionState A → List A
  bookings [] p = []
  bookings (o ∷ os) p = booked o p ++ bookings os (step o p)
