-- ===== src/Safety/History/Daily.antt =====
-- A daily halt holds until the next midnight UTC, unless it is lifted by hand for that user.
use leverage_agnet.Common.{if◌then◌else◌, ◌≡◌, Bool, true, not, ◌||◌, ◌==◌, ltb, some}
use leverage_agnet.Common.Calendar.{Time}
use leverage_agnet.Common.Number
use leverage_agnet.Common.Number.{Number}
use leverage_agnet.Safety.History.{Call, order, trade_closed, lift_daily}
use leverage_agnet.Safety.History.Keeps.{Keeps}
use leverage_agnet.Safety.KillSwitch.{daily}
use leverage_agnet.Safety.Store.{StateStore, View, IsLawful}
use leverage_agnet.Safety.Types.{SafetyConfig, UserId, KillSwitchState}

-- The calls for the user read the clock before `end`, and the halt is not lifted by hand.
abbrev pub keeps_daily : {A : Type 0} → UserId → Time → Call A → Bool
keeps_daily u end (order v at) = not (u == v) || ltb at.at_daily end
keeps_daily u end (trade_closed v _ _ _ _ t _) = not (u == v) || ltb t end
keeps_daily u end (lift_daily v) = not (u == v)
keeps_daily u end _ = true

-- a halt that runs until `end`
abbrev pub HaltedUntil : {A : Type 0} → KillSwitchState A → Time → Type 0
HaltedUntil k end = (k.is_halted ≡ true) × (k.halt_until ≡ some end)

module _ {A S : Type 0} (F : Number A) (st : StateStore A S) (config : SafetyConfig A)
    {view : S → View A} (law : IsLawful st view) where
  abbrev pub IsDailyHalted : UserId → Time → S → Type 0
  IsDailyHalted u end s = HaltedUntil ((view s).daily u) end

  -- the losses of the day so far: none after a halt that has run out
  abbrev pub lost_before : KillSwitchState A → A
  lost_before k = if k.is_halted then Number.nil F else k.current_loss_usdt

  -- the losses of the day with one more are the whole limit of the day, or more
  abbrev pub ReachesLimit : KillSwitchState A → A → A → Type 0
  ReachesLimit k loss start =
      let limit = F.mul start config.daily_loss_limit_pct in
      (F.ltb (Number.nil F) limit ≡ true)
      × (F.leb (F.decimal 100 2) (F.div (F.add (lost_before k) loss) limit) ≡ true)
