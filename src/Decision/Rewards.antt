-- ===== src/Decision/Rewards.antt =====
-- The reward that the generated exits leave for the risk, before their prices are rounded.
use leverage_agnet.Common.{arith, if_cases, Option, refl, some, none, ◌≡◌, true, false}
use leverage_agnet.Common.Number
use leverage_agnet.Common.Number.{IsOrdered, Number}
use leverage_agnet.Trading.{is_trade, Action, long, short, hold}
use leverage_agnet.Decision.Exits.{
  rounded, GeneratorConfig, short_target, long_target, Exits, short_exits, long_exits,
  compute_exits,
}
use leverage_agnet.Decision.Inputs.{StrategySignal, TechnicalResult}

-- Two prices for an entry: the stop is on the losing side, and the distance of the target is at
-- least `rr` times that of the stop.
abbrev pub IsRewarding : {A : Type 0} → Number A → Action → A → A → A → A → Type 0
IsRewarding F long entry rr stop target =
    (F.leb entry stop ≡ false) × (F.leb (F.add entry (F.mul (F.sub entry stop) rr)) target ≡ true)
IsRewarding F _ entry rr stop target =
    (F.leb stop entry ≡ false)
    × (F.leb target (F.sub entry (F.mul (F.sub stop entry) rr)) ≡ true)
    × (F.leb target (Number.nil F) ≡ false)

module _ {A : Type 0} (F : Number A) (ordered : IsOrdered F) where
  long_target-le :
      (tp resistance : Option A) (least : A)
      → F.leb least (long_target F tp resistance least) ≡ true
  long_target-le (some tp) resistance least =
      ground (arith, ordered.leb_refl least, ordered.ltb_not tp least)
  long_target-le none none least = ordered.leb_refl least
  long_target-le none (some r) least = ground (arith, ordered.leb_refl least)

  short_target-le :
      (tp support : Option A) (most : A) → F.leb (short_target F tp support most) most ≡ true
  short_target-le (some tp) support most =
      ground (arith, ordered.leb_refl most, ordered.ltb_not most tp)
  short_target-le none none most = ordered.leb_refl most
  short_target-le none (some s) most = ground (arith, ordered.leb_refl most)

  -- the unrounded prices behind a result
  abbrev pub HasReward : Action → A → A → Option (Exits A) → Type 0
  HasReward action entry rr none = Unit
  HasReward action entry rr (some e) =
      (stop : A) × (target : A) × (e.stop ≡ F.quantize 2 stop)
      × (e.target ≡ F.quantize 2 target)
      × IsRewarding F action entry rr stop target

  long_exits-HasReward :
      (entry stop : A) (tp resistance : Option A) (rr : A)
      → HasReward long entry rr (long_exits F entry stop tp resistance rr)
  unfolding long_exits
  long_exits-HasReward entry stop tp resistance rr =
      if_cases (HasReward long entry rr) (F.leb entry stop) _ _ (λ _. tt)
        (λ h. (
          stop,
          long_target F tp resistance (F.add entry (F.mul (F.sub entry stop) rr)),
          refl,
          refl,
          (h, long_target-le tp resistance (F.add entry (F.mul (F.sub entry stop) rr))),
        ))

  short_exits-HasReward :
      (entry stop : A) (tp support : Option A) (rr : A)
      → HasReward short entry rr (short_exits F entry stop tp support rr)
  unfolding short_exits
  short_exits-HasReward entry stop tp support rr =
      let target = short_target F tp support (F.sub entry (F.mul (F.sub stop entry) rr)) in
      if_cases (HasReward short entry rr) (F.leb stop entry) _ _ (λ _. tt)
        λ h.
          if_cases (HasReward short entry rr) (F.leb target (Number.nil F)) none
            (rounded F stop target) (λ _. tt)
            (λ g. (
              stop,
              target,
              refl,
              refl,
              (h, short_target-le tp support (F.sub entry (F.mul (F.sub stop entry) rr)), g),
            ))

  -- The exits that are computed for a long or a short position are roundings of a stop on the losing
  -- side and a target whose distance is at least the required reward to risk, and at least twice
  -- that of the stop.
  pub compute_exits-HasReward :
      (action : Action) (entry : A) (t : Option (TechnicalResult A)) (s : Option (StrategySignal A))
      (rr : A) (config : Option (GeneratorConfig A))
      → is_trade action ≡ true
      → HasReward action entry
          (Number.max F rr (F.decimal 20 1))
          (compute_exits F action entry t s rr config)
  unfolding compute_exits
  compute_exits-HasReward long entry t s rr config h = long_exits-HasReward entry _ _ _ _
  compute_exits-HasReward short entry t s rr config h = short_exits-HasReward entry _ _ _ _
  compute_exits-HasReward hold entry t s rr config h = cc
