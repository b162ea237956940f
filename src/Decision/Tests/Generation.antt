-- ===== src/Decision/Tests/Generation.antt =====
-- The candidate generation in a trend up, in thousandths.
use leverage_agnet.Redis.Memory.{empty_server, memory}
use leverage_agnet.Risk.Approved.{IsSafe}
use leverage_agnet.Risk.Candidate.{approve_candidate, candidate_steps, validate_candidate}
use leverage_agnet.Risk.Checks.{
  outcome_tests, position_tests, entry_tests, held_too_long, strategy_thresholds,
}
use leverage_agnet.Risk.Engine.{check_losses}
use leverage_agnet.Risk.Tests.{noon, no_losses, account, ctx, usd}
use leverage_agnet.Risk.Validators.{
  check_portfolio_risk, check_position_count_limit, check_consecutive_losses,
  check_weekly_loss_limit, check_daily_loss_limit, check_kill_switch,
}
use leverage_agnet.Common.{or_else, ◌<◌, sym, ap, true, ◌∷◌, ◌≡◌, refl, false, some, none, []}
use leverage_agnet.Common.Fixed.{thousandths, thousandths-IsOrdered}
use leverage_agnet.Common.Integer.{negsuc, ℤ, pos}
use leverage_agnet.Common.Number
use leverage_agnet.Trading.{is_trade, MarketRegime, TradeCandidate, trend_following, long, trend_up}
use leverage_agnet.Decision.Chain.{
  IsPlaced, validate_candidate-generate_trade_candidate,
  generate_trade_candidate-select_strategy_type,
}
use leverage_agnet.Decision.Crowding.{
  scored, price_spike, negative_funding, high_funding, neutral_rise, crowding, tally,
}
use leverage_agnet.Decision.Derivatives.{DerivativesFigures}
use leverage_agnet.Decision.Exits.{get_price, extract_atr, long_exits, Exits, compute_exits}
use leverage_agnet.Decision.Generator.{
  liquidation_price_of, candidate_notional, candidate_margin_ratio, candidate_leverage,
  short_score_of, long_score_of, candidate_risk, make_candidate, with_exits, directed, with_entry,
  generate_trade_candidate, GeneratorInput,
}
use leverage_agnet.Decision.Inputs.{
  crowded_long, bullish, hour_1, long_signal, MarketSnapshot, StrategySignal, TechnicalResult,
  SignalScore, StrategySelectionResult,
}
use leverage_agnet.Decision.Priorities.{classify_market_regime-IsVoted, IsVoted}
use leverage_agnet.Decision.Regime.{
  confirm_interval, primary_interval, count, up_tests, volatility_tests, min_signals_of,
  classify_market_regime,
}
use leverage_agnet.Decision.Rewards.{compute_exits-HasReward, HasReward}
use leverage_agnet.Decision.Selections.{select_strategy_type-IsSelected, IsSelected}
use leverage_agnet.Decision.Selector.{
  is_blocked, combined_risk, select_trend, make_result, select_strategy_type,
}

abbrev technical : TechnicalResult ℤ
technical = record {
  analyses =
      (
        hour_1,
        record {
          alignment = bullish;
          bandwidth = usd 6;
          atr = usd 2;
          volume_ratio = usd 1;
          close = none;
        },
      )
      ∷ [];
  tech_score = pos 500;
  latest_close = none;
  technical_atr = none;
  support_levels = usd 98 ∷ [];
  resistance_levels = [];
}

abbrev market : MarketSnapshot ℤ
market = record {
  current_price = some (usd 100);
  price = none;
  mark_price = none;
  news_event = false;
  spread_bps = some (usd 1);
  spread = none;
  volume_ratio = none;
  vol_ratio = none;
  volume_multiplier = none;
  price_change_pct = none;
  recent_price_change_pct = none;
  price_change_1h_pct = none;
}

abbrev upward : StrategySignal ℤ
upward = record {
  direction = long_signal;
  entry_price = none;
  entry = none;
  stop_loss = none;
  sl = none;
  take_profit = none;
  tp = none;
  leverage = some 5;
  margin_ratio = none;
}

abbrev chart : SignalScore ℤ
chart = record { long_score = usd 80; short_score = usd 20; risk_score = usd 20 }

abbrev selection : StrategySelectionResult ℤ
selection = make_result thousandths trend_following

abbrev input : GeneratorInput ℤ
input = record {
  coin = "BTC";
  symbol = "BTCUSDT";
  market_snapshot = some market;
  technical_result = some technical;
  strategy_signal = some upward;
  chart_score = some chart;
  news_score = none;
  derivatives_score = none;
  strategy_selection = some selection;
  account_state =
      some (record { available_balance = some (usd 10000); balance = none; total_balance = none });
  config = none;
}

-- three tests of four speak for the trend up
regime_is_up :
    classify_market_regime thousandths (some market) (some technical) (some upward) none
    ≡ record { regime = trend_up; confidence = pos 750 }
unfolding classify_market_regime volatility_tests up_tests count primary_interval confirm_interval
regime_is_up = refl

classify_market_regime-IsVoted_example :
    IsVoted thousandths
      (some market)
      (some technical)
      (some upward)
      none
      (min_signals_of thousandths none)
      (classify_market_regime thousandths (some market) (some technical) (some upward) none).regime
classify_market_regime-IsVoted_example =
    classify_market_regime-IsVoted thousandths (some market) (some technical) (some upward) none

strategy_is_selected :
    select_strategy_type thousandths (some trend_up) (some chart) none none (some market) none
    ≡ selection
unfolding select_strategy_type select_trend combined_risk strategy_thresholds
strategy_is_selected = refl

select_strategy_type-IsSelected_example :
    IsSelected thousandths
      (some trend_up)
      (some chart)
      none
      none
      (some market)
      none
      (select_strategy_type thousandths (some trend_up) (some chart) none none (some market) none)
select_strategy_type-IsSelected_example =
    select_strategy_type-IsSelected thousandths (some trend_up) (some chart) none none (some market)
      none

abbrev exits : Exits ℤ
exits = record { stop = usd 98; target = usd 104 }

exits_are_computed :
    compute_exits thousandths long (usd 100) (some technical) (some upward) (usd 2) none
    ≡ some exits
unfolding compute_exits long_exits extract_atr primary_interval
exits_are_computed = refl

compute_exits-HasReward_example :
    HasReward thousandths thousandths-IsOrdered long
      (usd 100)
      (Number.max thousandths (usd 2) (thousandths.decimal 20 1))
      (compute_exits thousandths long (usd 100) (some technical) (some upward) (usd 2) none)
compute_exits-HasReward_example =
    compute_exits-HasReward thousandths thousandths-IsOrdered long (usd 100) (some technical)
      (some upward) (usd 2) none refl

-- the candidate, and its approval
candidate_is_made : generate_trade_candidate thousandths input ≡ record {
  action = long;
  coin = "BTC";
  symbol = "BTCUSDT";
  strategy_type = trend_following;
  expected_holding_minutes = 120;
  entry_price = usd 100;
  stop_loss = some (usd 98);
  take_profit = some (usd 104);
  leverage = 5;
  margin_ratio = pos 20;
  notional_size = usd 1000;
  actual_rr = usd 2;
  min_required_rr = usd 2;
  expected_net_profit = some (pos 39400);
  expected_net_loss = some (pos 20600);
  liquidation_price = some (usd 80);
  spread_bps = usd 1;
  slippage_bps = usd 3;
}
unfolding generate_trade_candidate with_entry directed with_exits make_candidate compute_exits
    long_exits extract_atr primary_interval get_price candidate_risk long_score_of short_score_of
    candidate_leverage candidate_margin_ratio candidate_notional liquidation_price_of
    strategy_thresholds
candidate_is_made = refl

abbrev generated : TradeCandidate ℤ
generated = generate_trade_candidate thousandths input

generated_is_approved :
    (validate_candidate thousandths memory generated ctx account no_losses 0 none none none none 0
      noon empty_server).0.approved
    ≡ true
unfolding validate_candidate candidate_steps check_kill_switch entry_tests strategy_thresholds
    check_losses check_daily_loss_limit check_weekly_loss_limit check_consecutive_losses
    position_tests check_position_count_limit outcome_tests check_portfolio_risk approve_candidate
generated_is_approved = rw candidate_is_made refl

validate_candidate-generate_trade_candidate_example :
    ((entry : ℤ) × IsPlaced thousandths input entry generated)
    × IsSafe thousandths generated ctx account no_losses 0 none none none none
validate_candidate-generate_trade_candidate_example =
    validate_candidate-generate_trade_candidate thousandths input memory ctx account no_losses 0
      none none none none 0 noon empty_server generated_is_approved

selected_is_stored :
    input.strategy_selection
    ≡ some
        (select_strategy_type thousandths (some trend_up) (some chart) none none (some market) none)
selected_is_stored = ap some (sym strategy_is_selected)

generate_trade_candidate-select_strategy_type_example :
    (0 < generated.expected_holding_minutes)
    × (held_too_long thousandths generated (strategy_thresholds thousandths generated.strategy_type)
        ≡ false)
    × (is_blocked (or_else (some trend_up) MarketRegime.unknown) ≡ false)
generate_trade_candidate-select_strategy_type_example =
    generate_trade_candidate-select_strategy_type thousandths input (some trend_up) (some chart)
      none none (some market) none selected_is_stored
      (ap (λ c. is_trade c.action) candidate_is_made)

-- many long positions at a high funding rate, while the price and the open interest rise
abbrev crowd : DerivativesFigures ℤ
crowd = record {
  funding = pos 2;
  oi_change = usd 1;
  price_change = usd 1;
  volume_change = usd 0;
  liquidated = usd 0;
  long_crowded = true;
  short_crowded = false;
}

crowd_is_chased : scored thousandths none (tally thousandths none crowd trend_up) ≡ record {
  long_score_adjustment = negsuc 13999;
  short_score_adjustment = usd 4;
  derivatives_risk = usd 46;
  crowded_side = crowded_long;
}
unfolding tally crowding neutral_rise high_funding negative_funding price_spike
crowd_is_chased = refl
