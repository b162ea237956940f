-- ===== src/Execution/Trail.antt =====
-- The tickets that one call hands to the gateway: one entry, and after it only orders that reduce
-- the position.
use leverage_agnet.Common.{
  arith, false, refl, ◌&&◌, is_some, if_cases, none, some, inl, true, inr, Option, ◌∷◌, ◌⊎◌, ◌≡◌,
  List,
}
use leverage_agnet.Common.Number.{Number}
use leverage_agnet.Trading.{Action, long, short, hold, is_trade, ValidationResult}
use leverage_agnet.Execution.Cases.{IsSource, place_all_cases, execute_cases}
use leverage_agnet.Execution.Engine.{execute, Config}
use leverage_agnet.Execution.Guards.{local_execution_safety-quantity}
use leverage_agnet.Execution.Orders.{retry_protection, place_stop, submit, place_missing, protect}
use leverage_agnet.Execution.Tickets.{
  safe, entry_side, local_execution_safety, close_side, build_sl_ticket, build_tp_ticket,
  build_emergency_close_ticket, build_entry_ticket, Checked, Order,
}
use leverage_agnet.Execution.Types.{
  Side, market, entry, buy, sell, ExecutionResult, emergency_close, Mode, FilledOrder, OrderTicket,
  Run, ExecutionRequest, Services,
}

-- the side that opens a position in a direction, and the one that closes it
abbrev pub IsOpening : Action → Side → Type 0
IsOpening long s = s ≡ buy
IsOpening short s = s ≡ sell
IsOpening hold s = ⊥

abbrev pub IsClosing : Action → Side → Type 0
IsClosing long s = s ≡ sell
IsClosing short s = s ≡ buy
IsClosing hold s = ⊥

entry_side-IsOpening : (d : Action) → is_trade d ≡ true → IsOpening d (entry_side d)
unfolding entry_side
entry_side-IsOpening long h = refl
entry_side-IsOpening short h = refl
entry_side-IsOpening hold h = cc

close_side-IsClosing : (d : Action) → is_trade d ≡ true → IsClosing d (close_side d)
unfolding close_side
close_side-IsClosing long h = refl
close_side-IsClosing short h = refl
close_side-IsClosing hold h = cc

-- the ticket that opens a position for `o` of quantity `q`
pub record IsEntry {A : Type 0} (o : Order A) (q : A) (t : OrderTicket A) : Type 0 where
  pub opens : IsOpening o.direction t.side
  pub adds : t.reduce_only ≡ false
  pub has_symbol : t.symbol ≡ o.symbol
  pub has_type : t.order_type ≡ market
  pub has_purpose : t.purpose ≡ entry
  pub has_quantity : t.quantity ≡ q

-- `Trail o q base l`: `l` is `base` with an entry for `o` of quantity `q` on it, and closing
-- orders for `o` above that; the target and the stop are for the same quantity.
pub data Trail {A : Type 0} (o : Order A) (q : A) (base : List (OrderTicket A))
    : List (OrderTicket A) → Type 0 where
  opened :
      (t : OrderTicket A) (l : List (OrderTicket A))
      → l ≡ t ∷ base
      → IsEntry o q t
      → Trail o q base l
  closing :
      (t : OrderTicket A) (l l' : List (OrderTicket A))
      → l' ≡ t ∷ l
      → t.reduce_only ≡ true
      → IsClosing o.direction t.side
      → t.symbol ≡ o.symbol
      → (t.purpose ≡ emergency_close) ⊎ (t.quantity ≡ q)
      → Trail o q base l
      → Trail o q base l'

module _ {A W : Type 0} (svc : Services A W) (o : Order A) (c : Checked A)
    (directed : is_trade o.direction ≡ true) where
  submit-entry :
      (r : Run A W)
      → Trail o c.quantity r.sent (submit svc (build_entry_ticket o c.quantity) r).1.sent
  unfolding submit build_entry_ticket
  submit-entry r = opened (build_entry_ticket o c.quantity) _ refl (record {
    opens = entry_side-IsOpening o.direction directed;
    adds = refl;
    has_symbol = refl;
    has_type = refl;
    has_purpose = refl;
    has_quantity = refl;
  })

module _ {A W : Type 0} (svc : Services A W) (o : Order A) (c : Checked A)
    (directed : is_trade o.direction ≡ true) {base : List (OrderTicket A)} where
  submit-tp :
      (r : Run A W)
      → Trail o c.quantity base r.sent
      → Trail o c.quantity base (submit svc (build_tp_ticket o c.quantity c.take_profit) r).1.sent
  unfolding submit build_tp_ticket
  submit-tp r h =
      closing (build_tp_ticket o c.quantity c.take_profit) r.sent _ refl refl
        (close_side-IsClosing o.direction directed) refl (inr refl) h

  submit-sl :
      (r : Run A W)
      → Trail o c.quantity base r.sent
      → Trail o c.quantity base (submit svc (build_sl_ticket o c.quantity c.stop_loss) r).1.sent
  unfolding submit build_sl_ticket
  submit-sl r h =
      closing (build_sl_ticket o c.quantity c.stop_loss) r.sent _ refl refl
        (close_side-IsClosing o.direction directed) refl (inr refl) h

  submit-close :
      (r : Run A W) (q : A)
      → Trail o c.quantity base r.sent
      → Trail o c.quantity base (submit svc (build_emergency_close_ticket o q) r).1.sent
  unfolding submit build_emergency_close_ticket
  submit-close r q h =
      closing (build_emergency_close_ticket o q) r.sent _ refl refl
        (close_side-IsClosing o.direction directed) refl (inl refl) h

  place_stop-Trail :
      (sl : Option (FilledOrder A)) (r : Run A W)
      → Trail o c.quantity base r.sent
      → Trail o c.quantity base (place_stop svc o c sl r).1.sent
  unfolding place_stop
  place_stop-Trail (some sl) r h = h
  place_stop-Trail none r h = submit-sl r h

  place_missing-Trail :
      (tp sl : Option (FilledOrder A)) (r : Run A W)
      → Trail o c.quantity base r.sent
      → Trail o c.quantity base (place_missing svc o c tp sl r).2.sent
  unfolding place_missing
  place_missing-Trail (some tp) sl r h = place_stop-Trail sl r h
  place_missing-Trail none sl r h =
      let (tp', r₁) = submit svc (build_tp_ticket o c.quantity c.take_profit) r in
      if_cases
        (λ (x : Option (FilledOrder A) × Option (FilledOrder A) × Run A W).
          Trail o c.quantity base x.2.sent)
        (is_some tp') _ _ (λ _. place_stop-Trail sl r₁ (submit-tp r h)) (λ _. submit-tp r h)

  protect-Trail :
      (mode : Mode) (v : ValidationResult A) (f : FilledOrder A) (r : Run A W)
      → Trail o c.quantity base r.sent
      → Trail o c.quantity base (protect svc mode v o c f r).1.sent
  unfolding protect retry_protection
  protect-Trail mode v f r h =
      let (tp, sl, r₁) = place_missing svc o c none none r in
      let (tp', sl', r₂) = place_missing svc o c tp sl r₁ in
      let first = place_missing-Trail none none r h in
      let second = place_missing-Trail tp sl r₁ first in
      if_cases (λ (x : ExecutionResult A × Run A W). Trail o c.quantity base x.1.sent)
        (is_some tp && is_some sl) _ _ (λ _. first)
        (λ _.
          if_cases (λ (x : ExecutionResult A × Run A W). Trail o c.quantity base x.1.sent)
            (is_some tp' && is_some sl') _ _ (λ _. second) (λ _. submit-close r₂ f.quantity second))

module _ {A W : Type 0} (F : Number A) (svc : Services A W) (config : Config) where
  -- what the tickets of a call are for: the order and the quantity that were validated
  abbrev pub IsTrailed : ExecutionRequest A → Run A W → List (OrderTicket A) → Type 0
  IsTrailed req r sent =
      (v : ValidationResult A) × (o : Order A) × (q : A) × IsSource svc req r v o
      × (v.quantity ≡ some q)
      × Trail o q r.sent sent

  checked-IsDirected :
      (req : ExecutionRequest A) (v : ValidationResult A) (o : Order A) (c : Checked A)
      → local_execution_safety F req v o ≡ safe c
      → is_trade o.direction ≡ true
  unfolding local_execution_safety
  checked-IsDirected req v o c e = ground arith

  -- Either no ticket was handed to the gateway, or the tickets of the call are for the order and the
  -- quantity of the validation that came with the request or from the validator: one market order
  -- that is not reduce-only, a buy for LONG and a sell for SHORT, and after it only reduce-only
  -- orders on the other side of the same symbol, of which the target and the stop are for the
  -- entry's quantity.
  pub execute-Trail :
      (req : ExecutionRequest A) (r : Run A W)
      → let r' = (execute F svc config req r).1 in (r'.sent ≡ r.sent) ⊎ IsTrailed req r r'.sent
  execute-Trail req r =
      execute_cases F svc config (λ e. (e.1.sent ≡ r.sent) ⊎ IsTrailed req r e.1.sent) req r
        (record {
          refuses = λ mode code v w. inl refl;
          simulates = λ v w off. inl refl;
          orders = λ v o c w w' reached source live slow ok e allowed.
              let dir = checked-IsDirected req v o c e in
              let first = submit-entry svc o c dir (record r { world = w' }) in
              inr (
                v,
                o,
                c.quantity,
                source,
                local_execution_safety-quantity F svc config req v o c e,
                place_all_cases svc (λ e. Trail o c.quantity r.sent e.1.sent) config.mode v o c
                    (record r { world = w' }) first
                    (λ f _. protect-Trail svc o c dir config.mode v f _ first),
              );
        })
