-- ===== src/PositionManager/Engine.antt =====
-- agents/position_manager/engine.py: `PositionManagerEngine`. Its other methods pass their
-- arguments and the engine's fee rate to the functions of the modules beside this one.
use leverage_agnet.Common.{if◌then◌else◌, some, none, Option, String}
use leverage_agnet.Common.Calendar.{Time}
use leverage_agnet.Common.Number
use leverage_agnet.Common.Number.{Number}
use leverage_agnet.PositionManager.Lifecycle.{close_position}
use leverage_agnet.PositionManager.Liquidation.{check_liquidation_distance}
use leverage_agnet.PositionManager.TpSl.{check_tp_sl}
use leverage_agnet.PositionManager.Types.{
  is_open, LiquidationCheck, TickResult, PositionState, Hit, raises, ok, Result, nothing, tp_hit,
  sl_hit, CloseResult,
}

abbrev pub hit_reason : Hit → String
hit_reason tp_hit = "tp_hit"
hit_reason sl_hit = "sl_hit"

module _ {A : Type 0} (F : Number A) (fee_rate : A) where
  -- the check of the liquidation distance, for a position that is still open
  abbrev pub liq_check : PositionState A → A → LiquidationCheck A
  liq_check p price = if is_open p then check_liquidation_distance F p price else record {
    distance_pct = Number.one F;
    action = nothing;
    current_price = price;
    liquidation_price = p.liquidation_price;
  }

  abbrev pub tick_result : PositionState A → A → Option Hit → Option (CloseResult A) → TickResult A
  tick_result p price status result = record {
    position = p;
    tp_sl_status = status;
    close_result = result;
    liq_check = liq_check p price;
  }

  abbrev pub after_close : A → Hit → Result (CloseResult A) → Result (TickResult A)
  after_close price h (raises f) = raises f
  after_close price h (ok r) = ok (tick_result r.position price (some h) (some r))

  abbrev pub after_hit : PositionState A → A → Time → Option Hit → Result (TickResult A)
  after_hit p price now none = ok (tick_result p price none none)
  after_hit p price now (some h) =
      after_close price h (close_position F fee_rate p price (hit_reason h) now)

  unfoldable pub tick : PositionState A → A → Time → Result (TickResult A)
  tick p price now =
      let p' = record p { current_price = price } in after_hit p' price now (check_tp_sl F p' price)
