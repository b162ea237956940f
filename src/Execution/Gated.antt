-- ===== src/Execution/Gated.antt =====
-- The engine with the safety layer's adapter as its gate.
use leverage_agnet.Common.{arith, false, subst, ◌∙◌, ◌⊎◌, ◌≡◌, true, inl, inr, sym, ap, some}
use leverage_agnet.Common.Number.{Number}
use leverage_agnet.Safety.Adapter.{adapted, adapter_check, Holds}
use leverage_agnet.Safety.Order.{check_order_allowed-verdict, verdict}
use leverage_agnet.Safety.Store.{IsLawful, View, StateStore}
use leverage_agnet.Safety.Types.{UserId, SafetyConfig}
use leverage_agnet.Execution.Cases.{IsReached, gate_allows}
use leverage_agnet.Execution.Engine.{Config, execute}
use leverage_agnet.Execution.Guards.{execute-IsGuarded, IsGuarded}
use leverage_agnet.Execution.Types.{Run, ExecutionRequest, Services}

module _ {A S W : Type 0} (F : Number A) (st : StateStore A S) (safety : SafetyConfig A)
    {view : S → View A} (law : IsLawful st view) (holds : Holds S W) (svc : Services A W)
    (config : Config) where
  gate_allows-verdict :
      (u : UserId) (w : W)
      → gate_allows (some (adapted F st safety holds)) u w
        ≡ (verdict safety (view (holds.state w)) u (holds.clock w)).allowed
  unfolding adapter_check
  gate_allows-verdict u w =
      ap (λ r. r.allowed)
        (check_order_allowed-verdict F st safety law u (holds.clock w) (holds.state w))

  abbrev pub gated : Services A W
  gated = record svc { safety_gate = some (adapted F st safety holds) }

  -- With the safety layer's adapter as its gate, the engine hands a ticket to the gateway only if
  -- the verdict on the user, by the values and the clock of a world, allows orders: the world of
  -- the call, or the one that the validator left.
  pub execute-verdict :
      (req : ExecutionRequest A) (r : Run A W)
      → ((execute F gated config req r).1.sent ≡ r.sent)
        ⊎ ((w : W) × IsReached svc req r w
            × ((verdict safety (view (holds.state w)) req.user_id (holds.clock w)).allowed ≡ true))
  execute-verdict req r = reached (execute-IsGuarded F gated config req r)
    where
      reached :
          ((execute F gated config req r).1.sent ≡ r.sent) ⊎ IsGuarded F gated config req r
          → ((execute F gated config req r).1.sent ≡ r.sent)
            ⊎ ((w : W) × IsReached svc req r w
                × ((verdict safety (view (holds.state w)) req.user_id (holds.clock w)).allowed
                    ≡ true))
      reached (inl same) = inl same
      reached (inr g) =
          inr (g.world, g.is_reached, sym (gate_allows-verdict req.user_id g.world) ∙ g.is_allowed)

  stopped :
      (u : UserId) (w : W)
      → (view (holds.state w)).emergency.is_active ≡ true
      → (verdict safety (view (holds.state w)) u (holds.clock w)).allowed ≡ false
  stopped u w h = ground arith

  -- While an emergency stop is active in the world of the call and in the one that the validator
  -- leaves, the engine hands no ticket to the gateway, whatever the request.
  pub execute-emergency :
      (req : ExecutionRequest A) (r : Run A W)
      → (view (holds.state r.world)).emergency.is_active ≡ true
      → (view (holds.state (svc.validate req r.world).1)).emergency.is_active ≡ true
      → (execute F gated config req r).1.sent ≡ r.sent
  execute-emergency req r h h' = elim (execute-verdict req r) [
    | inl same ↦ same
    | inr (w, at, allowed) ↦
        let IsActive = λ (w : W). (view (holds.state w)).emergency.is_active ≡ true in
        let active : IsActive w = elim at [
          | inl e ↦ subst IsActive (sym e) h
          | inr e ↦ subst IsActive (sym e) h'
        ] in
        ground (arith, stopped req.user_id w active, allowed)
  ]
