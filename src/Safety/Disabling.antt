-- ===== src/Safety/Disabling.antt =====
-- What the adapter does with a trade that costs too much.
use leverage_agnet.Common.{arith, ◌≡◌, false, true, some, none}
use leverage_agnet.Common.Calendar.{Time}
use leverage_agnet.Common.Number
use leverage_agnet.Common.Number.{IsOrdered, Number}
use leverage_agnet.Safety.Adapter.{event_pnl, on_trade_executed}
use leverage_agnet.Safety.Drawdown.{update_balance}
use leverage_agnet.Safety.Gate.{record_trade_loss, on_trade_closed}
use leverage_agnet.Safety.KillSwitch.{record_loss, daily}
use leverage_agnet.Safety.Store.{StateStore}
use leverage_agnet.Safety.Types.{UserId, SafetyConfig, daily_loss_limit}
use leverage_agnet.Orchestrator.Types.{PostTradeEvent}

module _ {A S : Type 0} (F : Number A) (st : StateStore A S) (config : SafetyConfig A) where
  record_loss-reason :
      (u : UserId) (loss start : A) (now : Time) (s : S)
      → (record_loss F (daily F st config) u loss start now s).0.allowed ≡ false
      → (record_loss F (daily F st config) u loss start now s).0.halt_reason ≡ some daily_loss_limit
  unfolding record_loss
  record_loss-reason u loss start now s h = ground arith

  -- When the loss of a reported trade is refused by the daily switch, the adapter turns the user's
  -- automatic trading off for the daily limit, whatever the weekly switch and the drawdown say.
  pub on_trade_executed-disables :
      (event : PostTradeEvent A) (t₁ t₂ : Time) (s : S)
      → let loss = Number.abs F (event_pnl F st config event) in
        F.ltb (event_pnl F st config event) (Number.nil F) ≡ true
        → F.ltb (Number.nil F) loss ≡ true
        → (record_loss F
            (daily F st config)
            event.user_id
            loss
            event.period_start_balance
            t₁
            s).0.allowed
          ≡ false
        → (on_trade_executed F st config event t₁ t₂ s).0 ≡ some (some daily_loss_limit)
  unfolding on_trade_executed on_trade_closed record_trade_loss
  on_trade_executed-disables event t₁ t₂ s lost positive refused = ground (
    arith,
    record_loss-reason event.user_id (Number.abs F (event_pnl F st config event))
        event.period_start_balance t₁ s refused,
  )

  -- For ordered numbers: a reported trade that did not lose, whose balance the drawdown protection
  -- lets through, leaves the automatic trading on, and changes the store only by that balance.
  pub on_trade_executed-keeps :
      (ord : IsOrdered F) (event : PostTradeEvent A) (t₁ t₂ : Time) (s : S)
      → F.ltb (event_pnl F st config event) (Number.nil F) ≡ false
      → (update_balance F st config event.user_id event.current_balance s).0.allowed ≡ true
      → ((on_trade_executed F st config event t₁ t₂ s).0 ≡ none)
        × ((on_trade_executed F st config event t₁ t₂ s).1
            ≡ (update_balance F st config event.user_id event.current_balance s).1)
  unfolding on_trade_executed on_trade_closed record_trade_loss
  on_trade_executed-keeps ord event t₁ t₂ s won ok =
      let zero_not_less = ord.ltb_not (Number.nil F) (Number.nil F) in
      let zero_refl = ord.leb_refl (Number.nil F) in
      (ground (arith, zero_not_less, zero_refl), ground (arith, zero_not_less, zero_refl))
