-- ===== src/Execution/Orders.antt =====
-- agents/execution/engine.py: the part of `execute` that talks to the safety gate and the gateway.
use leverage_agnet.Common.{
  true, false, not, ◌&&◌, Option, none, some, ◌∷◌, if◌then◌else◌, or_else, is_some,
}
use leverage_agnet.Trading.{ValidationResult, system_error, safety_gate_blocked}
use leverage_agnet.Safety.Types.{UserId}
use leverage_agnet.Execution.Tickets.{
  Order, build_entry_ticket, build_tp_ticket, build_sl_ticket, build_emergency_close_ticket,
  Checked,
}
use leverage_agnet.Execution.Types.{
  SafetyDecision, Mode, OrderTicket, FilledOrder, ExecutionResult, Services, Run, refused,
}

module _ {A W : Type 0} (svc : Services A W) where
  -- `gateway.place_order(ticket)`
  unfoldable pub submit : OrderTicket A → Run A W → Option (FilledOrder A) × Run A W
  submit t r =
      let (filled, w) = svc.place_order t r.world in
      (filled, record { world = w; sent = t ∷ r.sent })

  -- `if sl_filled is None: sl_filled = place_order(...)`
  unfoldable pub place_stop :
      Order A → Checked A → Option (FilledOrder A) → Run A W → Option (FilledOrder A) × Run A W
  place_stop o c (some sl) r = (some sl, r)
  place_stop o c none r = submit (build_sl_ticket o c.quantity c.stop_loss) r

  -- The body of both `try` blocks: what is not filled yet is placed, first the target and then the
  -- stop. A call that raises ends the block, which shows as an order that is still missing.
  unfoldable pub place_missing :
      Order A
      → Checked A
      → Option (FilledOrder A)
      → Option (FilledOrder A)
      → Run A W
      → Option (FilledOrder A) × Option (FilledOrder A) × Run A W
  unfolding place_stop
  place_missing o c (some tp) sl r = let (sl', r') = place_stop o c sl r in (some tp, sl', r')
  place_missing o c none sl r =
      let (tp', r₁) = submit (build_tp_ticket o c.quantity c.take_profit) r in
      let (sl', r₂) = place_stop o c sl r₁ in if is_some tp' then (tp', sl', r₂) else (none, sl, r₁)

  -- the result of an entry whose protection could not be placed
  abbrev pub closed_result :
      Mode → ValidationResult A → FilledOrder A → Option (FilledOrder A) → ExecutionResult A
  closed_result mode v filled close = record {
    approved = true;
    executed = true;
    mode = mode;
    rejection_code = none;
    validation = some v;
    entry_order = some filled;
    tp_order = none;
    sl_order = none;
    tp_sl_failed = true;
    emergency_close_order = close;
    emergency_close_failed = not (is_some close);
  }

  abbrev pub protected_result :
      Mode
      → ValidationResult A
      → FilledOrder A
      → Option (FilledOrder A)
      → Option (FilledOrder A)
      → ExecutionResult A
  protected_result mode v filled tp sl = record {
    approved = true;
    executed = true;
    mode = mode;
    rejection_code = none;
    validation = some v;
    entry_order = some filled;
    tp_order = tp;
    sl_order = sl;
    tp_sl_failed = false;
    emergency_close_order = none;
    emergency_close_failed = false;
  }

  -- STEP 3a: one retry, and an emergency close if that fails too
  unfoldable pub retry_protection :
      Mode
      → ValidationResult A
      → Order A
      → Checked A
      → FilledOrder A
      → Option (FilledOrder A)
      → Option (FilledOrder A)
      → Run A W
      → ExecutionResult A × Run A W
  retry_protection mode v o c filled tp sl r =
      let (tp', sl', r₁) = place_missing o c tp sl r in
      let (close, r₂) = submit (build_emergency_close_ticket o filled.quantity) r₁ in
      if is_some tp' && is_some sl'
      then (protected_result mode v filled tp' sl', r₁)
      else (closed_result mode v filled close, r₂)

  -- the first `try` block, once the entry is filled
  unfoldable pub protect :
      Mode
      → ValidationResult A
      → Order A
      → Checked A
      → FilledOrder A
      → Run A W
      → ExecutionResult A × Run A W
  protect mode v o c filled r =
      let (tp, sl, r₁) = place_missing o c none none r in
      if is_some tp && is_some sl
      then (protected_result mode v filled tp sl, r₁)
      else retry_protection mode v o c filled tp sl r₁

  -- STEP 3: a raise of the entry's call ends in the outer handler
  unfoldable pub place_all :
      Mode → ValidationResult A → Order A → Checked A → Run A W → ExecutionResult A × Run A W
  place_all mode v o c r =
      let (filled, r₁) = submit (build_entry_ticket o c.quantity) r in
      elim filled [
        | none ↦ (refused mode (some system_error) none, r₁)
        | some f ↦ protect mode v o c f r₁
      ]

  -- STEP 2.5: what the gate decided; `none` is a call that raised
  unfoldable pub after_decision :
      Mode
      → ValidationResult A
      → Order A
      → Checked A
      → Run A W
      → Option SafetyDecision
      → ExecutionResult A × Run A W
  after_decision mode v o c r none = (refused mode (some system_error) none, r)
  after_decision mode v o c r (some d) =
      if d.allowed
      then place_all mode v o c r
      else (refused mode (some (or_else d.rejection_code safety_gate_blocked)) none, r)

  -- the safety gate, if there is one
  unfoldable pub ask_gate :
      UserId
      → Mode
      → ValidationResult A
      → Order A
      → Checked A
      → Run A W
      → Option (UserId → W → Option SafetyDecision × W)
      → ExecutionResult A × Run A W
  ask_gate user_id mode v o c r none = place_all mode v o c r
  ask_gate user_id mode v o c r (some check) =
      let (decision, w) = check user_id r.world in
      after_decision mode v o c (record r { world = w }) decision

  abbrev pub pass_gate :
      UserId
      → Mode
      → ValidationResult A
      → Order A
      → Checked A
      → Run A W
      → ExecutionResult A × Run A W
  pass_gate user_id mode v o c r = ask_gate user_id mode v o c r svc.safety_gate
