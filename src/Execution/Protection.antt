-- ===== src/Execution/Protection.antt =====
-- What `execute` reports of the orders behind it: an entry is never left without a report of how
-- it is protected.
use leverage_agnet.Common.{Bool, true, some, ◌&&◌, ◌≡◌, false, not, Option, none, is_some}
use leverage_agnet.Common.Number.{Number}
use leverage_agnet.Execution.Types.{
  OrderTicket, entry, take_profit, stop_loss, emergency_close, Purpose, FilledOrder,
  ExecutionResult, Services, Run,
}

-- What a result says of the position, by its three flags.
pub record IsReported {A : Type 0} (e : ExecutionResult A) : Type 0 where
  pub entered : is_some e.entry_order ≡ e.executed
  pub entered_approved : (e.executed && not e.approved) ≡ false
  pub protected_target : is_some e.tp_order ≡ (e.executed && not e.tp_sl_failed)
  pub protected_stop : is_some e.sl_order ≡ (e.executed && not e.tp_sl_failed)
  pub closed_or_failed :
      e.emergency_close_failed ≡ (e.tp_sl_failed && not (is_some e.emergency_close_order))
  pub unprotected_entered : (e.tp_sl_failed && not e.executed) ≡ false

-- Some call of the gateway, with a ticket of the purpose, answered `x`; a missing order claims
-- nothing.
abbrev pub IsAnswer : {A W : Type 0} → Services A W → Purpose → Option (FilledOrder A) → Type 0
IsAnswer svc purpose none = Unit
IsAnswer {A} {W} svc purpose (some f) =
    (t : OrderTicket A) × (w : W) × (t.purpose ≡ purpose) × ((svc.place_order t w).0 ≡ some f)

-- a close that is said to have failed was asked for, and the gateway's call raised
abbrev pub IsFailedClose : {A W : Type 0} → Services A W → Bool → Type 0
IsFailedClose svc false = Unit
IsFailedClose {A} {W} svc true =
    (t : OrderTicket A) × (w : W) × (t.purpose ≡ emergency_close) × ((svc.place_order t w).0 ≡ none)

-- every order in a result is what the gateway answered to a ticket for it
pub record IsAnswered {A W : Type 0} (svc : Services A W) (e : ExecutionResult A) : Type 0 where
  pub entry_answer : IsAnswer svc entry e.entry_order
  pub target_answer : IsAnswer svc take_profit e.tp_order
  pub stop_answer : IsAnswer svc stop_loss e.sl_order
  pub close_answer : IsAnswer svc emergency_close e.emergency_close_order
  pub close_failure : IsFailedClose svc e.emergency_close_failed

module _ {A W : Type 0} (svc : Services A W) where
  -- both orders that a block of placements leaves are answers
  abbrev AreAnswers : Option (FilledOrder A) × Option (FilledOrder A) × Run A W → Type 0
  AreAnswers x = IsAnswer svc take_profit x.0 × IsAnswer svc stop_loss x.1

  abbrev ResultAnswered : ExecutionResult A × Run A W → Type 0
  ResultAnswered x = IsAnswered svc x.0
