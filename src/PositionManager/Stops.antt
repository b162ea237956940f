-- ===== src/PositionManager/Stops.antt =====
-- The guards on a position's stop, and what a tick does.
use leverage_agnet.Common.{
  sym, subst, ◌||◌, String, Bool, arith, ◌≢◌, refl, is_some, not, ◌&&◌, if◌then◌else◌, ◌≡◌, true,
  false, some, none, Option,
}
use leverage_agnet.Common.Calendar.{Time}
use leverage_agnet.Common.Number.{IsOrdered, Number}
use leverage_agnet.Trading.{is_trade}
use leverage_agnet.PositionManager.Engine.{hit_reason, tick_result, after_hit, tick}
use leverage_agnet.PositionManager.Lifecycle.{closed_result, close_position}
use leverage_agnet.PositionManager.TpSl.{
  calc_breakeven, check_tp_sl, move_sl_to_breakeven, update_stop_loss,
}
use leverage_agnet.PositionManager.Types.{
  tp_hit, Hit, is_long, is_open, TickResult, PositionState, ok, sl_hit, TpSlUpdate,
}

module _ {A : Type 0} (F : Number A) (fee_rate : A) where
  -- the price is at the target or beyond it, and at the stop or beyond it
  abbrev pub target_reached : PositionState A → A → Bool
  target_reached p price =
      if is_long p.direction then F.leb p.take_profit price else F.leb price p.take_profit

  abbrev pub stop_reached : PositionState A → A → Bool
  stop_reached p price =
      if is_long p.direction then F.leb price p.stop_loss else F.leb p.stop_loss price

  -- the hit that a price makes: the target goes before the stop
  abbrev pub IsHit : PositionState A → A → Option Hit → Type 0
  IsHit p price none = (is_open p && (target_reached p price || stop_reached p price)) ≡ false
  IsHit p price (some tp_hit) = (is_open p && target_reached p price) ≡ true
  IsHit p price (some sl_hit) =
      (is_open p && not (target_reached p price) && stop_reached p price) ≡ true

  check_tp_sl-IsHit : (p : PositionState A) (price : A) → IsHit p price (check_tp_sl F p price)
  unfolding check_tp_sl
  check_tp_sl-IsHit p price = ground arith

  -- the reason on record: that of the hit, or the one before
  abbrev pub reason_after : Option Hit → Option String → Option String
  reason_after none before = before
  reason_after (some tp_hit) before = some "tp_hit"
  reason_after (some sl_hit) before = some "sl_hit"

  reason_after_lem :
      (h : Hit) (before : Option String) → some (hit_reason h) ≡ reason_after (some h) before
  reason_after_lem tp_hit before = refl
  reason_after_lem sl_hit before = refl

  -- what a tick with a hit status leaves behind
  abbrev pub IsTicked : PositionState A → A → Option Hit → TickResult A → Type 0
  IsTicked p price status t =
      (t.tp_sl_status ≡ status)
      × (is_open t.position ≡ (is_open p && not (is_some status)))
      × (is_some t.close_result ≡ is_some status)
      × (t.position.quantity ≡ p.quantity)
      × (t.position.current_price ≡ price)
      × (t.position.close_reason ≡ reason_after status p.close_reason)

  after_hit-IsTicked :
      (p : PositionState A) (price : A) (now : Time) (status : Option Hit)
      → p.current_price ≡ price
      → (is_some status && not (is_open p)) ≡ false
      → (t : TickResult A) × (after_hit F fee_rate p price now status ≡ ok t)
        × IsTicked p price status t
  unfolding close_position
  after_hit-IsTicked p price now none current h = (
    tick_result F fee_rate p price none none,
    refl,
    (refl, ground arith, refl, refl, current, refl),
  )
  after_hit-IsTicked p price now (some s) current h =
      let r = closed_result F fee_rate p price (hit_reason s) now in
      (
        tick_result F fee_rate r.position price (some s) (some r),
        ground arith,
        (refl, ground arith, refl, refl, refl, reason_after_lem s p.close_reason),
      )

  -- A tick never raises. It reports the target if the price of an open position is at it or beyond
  -- it, the stop if that holds of the stop alone, and otherwise nothing. On a hit it reports a close
  -- and leaves the position closed for that reason, and otherwise as open as it was. The price is
  -- the position's current one then, and the quantity on record stays.
  pub tick-IsTicked :
      (p : PositionState A) (price : A) (now : Time)
      → (t : TickResult A) × (tick F fee_rate p price now ≡ ok t)
        × IsHit p price t.tp_sl_status
        × IsTicked p price t.tp_sl_status t
  unfolding tick check_tp_sl
  tick-IsTicked p price now =
      let hit = check_tp_sl F p price in
      let (t, e, h) =
        after_hit-IsTicked (record p { current_price = price }) price now hit refl (ground arith) in
      (
        t,
        e,
        subst (IsHit p price) (sym h.0) (check_tp_sl-IsHit p price),
        subst (λ s. IsTicked p price s t) (sym h.0) h,
      )

  -- A stop that `update_stop_loss` accepts for a LONG or SHORT position is the position's stop,
  -- and is not hit at its current price.
  pub update_stop_loss-unhit :
      (p : PositionState A) (sl : A) (u : TpSlUpdate A)
      → update_stop_loss F p sl ≡ ok u
      → is_trade p.direction ≡ true
      → (check_tp_sl F u.position u.position.current_price ≢ some sl_hit)
        × (u.position.stop_loss ≡ sl)
  unfolding update_stop_loss check_tp_sl
  update_stop_loss-unhit p sl u h dir = ground arith

  -- For ordered numbers, a move to breakeven goes towards the price and does not pass it: for a
  -- long position the new stop is above the old one and below the price, for another one the
  -- other way round.
  pub move_sl_to_breakeven-improves :
      (ord : IsOrdered F) (p : PositionState A) (price : A) (u : TpSlUpdate A)
      → move_sl_to_breakeven F fee_rate p price ≡ ok (some u)
      → (if is_long p.direction
          then F.ltb p.stop_loss u.position.stop_loss && F.ltb u.position.stop_loss price
          else F.ltb u.position.stop_loss p.stop_loss && F.ltb price u.position.stop_loss)
        ≡ true
  unfolding move_sl_to_breakeven
  move_sl_to_breakeven-improves ord p price u h =
      let b = calc_breakeven F p fee_rate in
      ground (
        arith,
        ord.ltb_not p.stop_loss b,
        ord.ltb_not b price,
        ord.ltb_not b p.stop_loss,
        ord.ltb_not price b,
      )
