-- ===== src/Decision/Tests.antt =====
-- Final decisions on the trade of `Execution.Tests`, with a profit minimum of 10.
use leverage_agnet.Common.{◌⊎◌, ◌↔◌, ◌≡◌, Option, refl, true, false, some, none}
use leverage_agnet.Common.Integer.{ℤ, pos, whole}
use leverage_agnet.Trading.{is_trade, ReviewResult, hold, long, approve}
use leverage_agnet.Decision.Final.{
  min_expected_profit, passes_review, final_action, decide_final_action, Config, Settings,
}
use leverage_agnet.Decision.Final.Rules.{decide_final_action-IsAgreed, IsAgreed}
use leverage_agnet.Execution.Tests.{approval, buy_btc}
mod Generation

abbrev settings : Settings ℤ
settings = record {
  min_expected_net_profit = some (pos 10);
  min_expected_net_profit_pct = none;
  reject_on_critical_contradiction = none;
  min_ai_review_confidence = none;
  ai_review_required = none;
}

abbrev pub config : Option (Config ℤ)
config = some (record { top = settings; decision = none })

abbrev pub consent : ReviewResult ℤ
consent = record { review_action = approve; confidence = pos 1; critical_contradiction = false }

agreement_is_long :
    (decide_final_action whole (some buy_btc) (some consent) (some approval) config).action ≡ long
unfolding decide_final_action final_action passes_review min_expected_profit
agreement_is_long = refl

decide_final_action-IsAgreed_example :
    let d = decide_final_action whole (some buy_btc) (some consent) (some approval) config in
    ((is_trade d.action ≡ true) ↔ IsAgreed whole buy_btc consent approval config)
    × ((d.action ≡ hold) ⊎ (d.action ≡ long))
decide_final_action-IsAgreed_example =
    decide_final_action-IsAgreed whole buy_btc consent approval config
