-- ===== src/Portfolio/Tests/Rooms.antt =====
-- The risk score of two positions of the same size, in thousandths.
use leverage_agnet.Portfolio.Engine.{check_concentration, build_snapshot}
use leverage_agnet.Portfolio.Exposure.{calc_coin_concentrations, build_symbol_exposures}
use leverage_agnet.Portfolio.Room.{calculate_risk_score-IsRoomy, IsRoomy}
use leverage_agnet.Portfolio.Score.{
  level_moderate, breaches_of, score_to_level, risk_score, calculate_correlation_risk,
  calculate_risk_score,
}
use leverage_agnet.Portfolio.Types.{AccountContext, PortfolioPosition, PortfolioSnapshot, moderate}
use leverage_agnet.Common.{◌*◌, List, ◌∷◌, ◌≡◌, ◌↔◌, ℕ, [], refl, true, String}
use leverage_agnet.Common.Fixed.{thousandths-IsOrdered, thousandths}
use leverage_agnet.Common.Integer.{ℤ, pos}
use leverage_agnet.Trading.{long}

abbrev usd : ℕ → ℤ
usd n = pos (n * 1000)

abbrev holder : AccountContext ℤ
holder = record {
  available_balance = usd 10000;
  initial_balance = usd 10000;
  risk_profile = moderate;
}

abbrev held : String → PortfolioPosition ℤ
held coin = record {
  coin = coin;
  symbol = "PERP";
  direction = long;
  entry_price = usd 100;
  current_price = usd 100;
  stop_loss = usd 98;
  quantity = usd 10;
  leverage = 5;
  margin_used = usd 200;
  unrealized_pnl = usd 0;
}

abbrev pair : List (PortfolioPosition ℤ)
pair = held "BTC" ∷ held "ETH" ∷ []

abbrev snapshot : PortfolioSnapshot ℤ
snapshot = build_snapshot thousandths pair holder

-- 0.4 of 0.04, 0.25 of 1, 0.2 of 0.85 and 0.15 of 0.25, each rounded to thousandths
score_is_moderate :
    let s = risk_score thousandths (λ x. x) (pos 850) pair holder in
    (s.level ≡ level_moderate) × (s.can_add ≡ true) × (s.max_additional_risk_usdt ≡ usd 960)
unfolding risk_score calculate_risk_score build_snapshot calculate_correlation_risk score_to_level
    breaches_of build_symbol_exposures calc_coin_concentrations check_concentration
score_is_moderate = (refl, refl, refl)

calculate_risk_score-IsRoomy_example :
    ((calculate_risk_score thousandths snapshot
        (calculate_correlation_risk thousandths (λ x. x) pair (pos 850))
        holder
        (5 ∷ 5 ∷ [])).can_add
      ≡ true)
    ↔ IsRoomy thousandths holder snapshot
calculate_risk_score-IsRoomy_example =
    calculate_risk_score-IsRoomy thousandths holder thousandths-IsOrdered snapshot
      (calculate_correlation_risk thousandths (λ x. x) pair (pos 850)) (5 ∷ 5 ∷ [])
