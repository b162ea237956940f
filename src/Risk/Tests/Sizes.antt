-- ===== src/Risk/Tests/Sizes.antt =====
-- Sizes by Kelly's criterion, in thousandths: 60 of 100 trades won twice what a lost one cost.
use leverage_agnet.Risk.Kelly.{recommended_kelly_fraction, calculate_kelly, TradeStatistics}
use leverage_agnet.Risk.Limits.{calculate-IsCalculated, IsCalculated}
use leverage_agnet.Risk.Methods.{
  kelly_risk, get_risk_amount, build_sizing_result, sizing_with, SizingConfig, calculate, kelly,
  kelly_capped,
}
use leverage_agnet.Risk.Sizing.{validate_rr_ratio, round_to_lot_size}
use leverage_agnet.Risk.Tests.{usd, signal, account}
use leverage_agnet.Common.{true, ◌≡◌, refl, some, none, ◌∷◌, []}
use leverage_agnet.Common.Fixed.{thousandths, thousandths-IsOrdered}
use leverage_agnet.Common.Integer.{ℤ, pos}

abbrev history : TradeStatistics ℤ
history = record {
  total_trades = 100;
  winning_trades = 60;
  avg_win_usdt = usd 20;
  avg_loss_usdt = usd 10;
}

abbrev by_kelly : SizingConfig ℤ
by_kelly = sizing_with thousandths kelly none none (pos 250)

-- half of the full share of 0.4 is cut off at 0.05
size_is_calculated :
    calculate thousandths by_kelly signal account 10 "BTCUSDT" (some history)
    ≡ some (record {
      method = kelly;
      risk_amount_usdt = usd 500;
      risk_pct = pos 50;
      quantity = usd 250;
      margin_used = usd 2500;
      position_value = usd 25000;
      max_loss = usd 500;
      max_profit = usd 1000;
      final_leverage = 10;
      rr_ratio = usd 2;
      kelly_result = some (record {
        full_kelly_fraction = pos 400;
        applied_fraction = pos 50;
        kelly_multiplier = pos 500;
        win_rate = pos 600;
        avg_odds = usd 2;
        sample_size = 100;
        is_valid = true;
      });
      warnings = kelly_capped ∷ [];
    })
unfolding calculate build_sizing_result get_risk_amount kelly_risk calculate_kelly
    recommended_kelly_fraction round_to_lot_size validate_rr_ratio
size_is_calculated = refl

calculate-IsCalculated_example :
    IsCalculated thousandths thousandths-IsOrdered by_kelly signal account 10 "BTCUSDT"
      (some history)
      (calculate thousandths by_kelly signal account 10 "BTCUSDT" (some history))
calculate-IsCalculated_example =
    calculate-IsCalculated thousandths thousandths-IsOrdered by_kelly signal account 10 "BTCUSDT"
      (some history) refl refl
