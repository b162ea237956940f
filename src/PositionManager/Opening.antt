-- ===== src/PositionManager/Opening.antt =====
-- Which signals and validations open a position.
use leverage_agnet.Common.{
  not, ◌==◌, if_cases, ℕ, arith, Option, refl, none, or_else, ◌≡◌, is_some, ◌&&◌, Bool, false, true,
  some,
}
use leverage_agnet.Common.Calendar.{Time}
use leverage_agnet.Common.Number
use leverage_agnet.Common.Number.{Number}
use leverage_agnet.Trading.{RawSignal, ValidationResult}
use leverage_agnet.Safety.Types.{UserId}
use leverage_agnet.PositionManager.Lifecycle.{open_with, open_figures, open_position}
use leverage_agnet.PositionManager.Types.{is_open, Result, ok, raises, OpenResult}

abbrev pub is_ok : {B : Type 0} → Result B → Bool
is_ok (ok b) = true
is_ok (raises f) = false

-- everything that `open_position` needs
abbrev pub can_open : {A : Type 0} → RawSignal A → ValidationResult A → Bool
can_open signal v =
    v.approved
    && is_some signal.stop_loss
    && is_some signal.take_profit
    && is_some v.quantity
    && not (or_else v.final_leverage 0 == 0)

module _ {A : Type 0} (F : Number A) (fee_rate : A) where
  -- what holds of every position that was just opened
  abbrev pub IsFresh : RawSignal A → ValidationResult A → Result (OpenResult A) → Type 0
  IsFresh signal v (raises f) = Unit
  IsFresh signal v (ok r) =
      (is_open r.position ≡ true)
      × (signal.stop_loss ≡ some r.position.stop_loss)
      × (signal.take_profit ≡ some r.position.take_profit)
      × (r.position.direction ≡ signal.direction)
      × (r.position.entry_price ≡ signal.entry_price)
      × (v.quantity ≡ some r.position.quantity)
      × (v.quantity ≡ some r.position.original_quantity)
      × (v.final_leverage ≡ some r.position.leverage)
      × (r.position.margin_used ≡ v.margin_required_usdt)
      × (r.position.realized_pnl ≡ Number.nil F)
      × (r.position.dca_count ≡ 0)

  module _ (user_id : UserId) (signal : RawSignal A) (v : ValidationResult A) (now : Time) where
    open_figures-IsFresh :
        (sl tp : A) (q : Option A) (lev : Option ℕ)
        → signal.stop_loss ≡ some sl
        → signal.take_profit ≡ some tp
        → v.quantity ≡ q
        → v.final_leverage ≡ lev
        → IsFresh signal v (
            open_figures F fee_rate user_id signal v.max_loss_usdt sl tp now q lev
              v.margin_required_usdt)
    unfolding open_figures
    open_figures-IsFresh sl tp none lev e₁ e₂ e₃ e₄ = tt
    open_figures-IsFresh sl tp (some q) none e₁ e₂ e₃ e₄ = tt
    open_figures-IsFresh sl tp (some q) (some lev) e₁ e₂ e₃ e₄ =
        if_cases (IsFresh signal v) (lev == 0) _ _ (λ _. tt)
          (λ _. (refl, e₁, e₂, refl, refl, e₃, e₃, e₄, refl, refl, refl))

    open_with-IsFresh :
        (sl tp : Option A)
        → signal.stop_loss ≡ sl
        → signal.take_profit ≡ tp
        → IsFresh signal v (open_with F fee_rate user_id signal v now sl tp)
    unfolding open_with
    open_with-IsFresh none tp e₁ e₂ = tt
    open_with-IsFresh (some sl) none e₁ e₂ = tt
    open_with-IsFresh (some sl) (some tp) e₁ e₂ =
        open_figures-IsFresh sl tp v.quantity v.final_leverage e₁ e₂ refl refl

  -- A position is opened exactly if the validation is approved with a quantity and a leverage
  -- other than 0, a natural number here, and the signal has a stop and a target. It is then open, with that stop and that target,
  -- its direction and entry are the signal's, its quantity, its margin, which may be missing, and
  -- its leverage are the validation's, and nothing has been added to it or booked.
  pub open_position-IsFresh :
      (user_id : UserId) (signal : RawSignal A) (v : ValidationResult A) (now : Time)
      → (is_ok (open_position F fee_rate user_id signal v now) ≡ can_open signal v)
        × IsFresh signal v (open_position F fee_rate user_id signal v now)
  unfolding open_position open_with open_figures
  open_position-IsFresh user_id signal v now = (
    ground arith,
    if_cases (IsFresh signal v) (not v.approved) _ _ (λ _. tt)
        (λ _. open_with-IsFresh user_id signal v now signal.stop_loss signal.take_profit refl refl),
  )
