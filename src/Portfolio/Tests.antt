-- ===== src/Portfolio/Tests.antt =====
-- Portfolios in whole numbers, where the risk limit is 0.
use leverage_agnet.Portfolio.Admission.{admit_all-limit, admit, total_risk, admit_all}
use leverage_agnet.Portfolio.Engine.{can_add_position, build_snapshot}
use leverage_agnet.Portfolio.Types.{PortfolioPosition, AccountContext, moderate}
use leverage_agnet.Common.{◌∷◌, ◌≡◌, ℕ, [], refl, true}
use leverage_agnet.Common.Integer.{negsuc, ℤ, pos, whole, leb_ℤ, whole-IsOrdered}
use leverage_agnet.Trading.{long}
mod Rooms

abbrev account : AccountContext ℤ
account = record {
  available_balance = pos 1000;
  initial_balance = pos 1000;
  risk_profile = moderate;
}

abbrev position : ℕ → PortfolioPosition ℤ
position stop = record {
  coin = "BTC";
  symbol = "BTCUSDT";
  direction = long;
  entry_price = pos 100;
  current_price = pos 120;
  stop_loss = pos stop;
  quantity = pos 1;
  leverage = 2;
  margin_used = pos 50;
  unrealized_pnl = pos 20;
}

-- a stop above the entry risks nothing, one below it does
second_is_refused : admit_all whole account (position 110 ∷ position 90 ∷ []) [] ≡ position 110 ∷ []
unfolding admit_all admit can_add_position build_snapshot
second_is_refused = refl

admit_all-limit_example :
    leb_ℤ
      (total_risk whole account (admit_all whole account (position 110 ∷ position 90 ∷ []) []))
      (pos 0)
    ≡ true
unfolding build_snapshot
admit_all-limit_example =
    admit_all-limit whole account whole-IsOrdered (position 110 ∷ position 90 ∷ []) [] refl

abbrev ruined : AccountContext ℤ
ruined = record account { available_balance = negsuc 0 }
