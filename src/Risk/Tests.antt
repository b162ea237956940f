-- ===== src/Risk/Tests.antt =====
-- The risk engine on concrete accounts, in thousandths, with a Redis in memory.
use leverage_agnet.Portfolio.Types.{moderate}
use leverage_agnet.Redis.{Client}
use leverage_agnet.Redis.Memory.{memory-IsReliable, memory_view, Server, memory, empty_server}
use leverage_agnet.Risk.Approved.{validate_candidate-IsSafe, IsSized, IsSafe}
use leverage_agnet.Risk.Approves.{validate_candidate-approves}
use leverage_agnet.Risk.Candidate.{approve_candidate, candidate_steps, validate_candidate}
use leverage_agnet.Risk.Checks.{outcome_tests, position_tests, strategy_thresholds, entry_tests}
use leverage_agnet.Risk.Engine.{
  reject_with, approve_size, size_signal, check_position, check_losses, signal_refusal,
  validate_steps, validate, Losses,
}
use leverage_agnet.Risk.Halts.{
  resume_trading-check_kill_switch, halt_trading-blocks, halt_trading-ends,
}
use leverage_agnet.Risk.Hours.{compute_until-resets, check_trading_hours-window}
use leverage_agnet.Risk.KillSwitch.{
  daily_loss_limit, weekly_loss_limit, resume_trading, until_next_monday_utc, halt_trading,
  compute_until,
}
use leverage_agnet.Risk.Signals.{validate-IsAdmissible, IsSizedBy, IsAdmissible}
use leverage_agnet.Risk.Sizing.{
  validate_position_size, round_to_lot_size, resolve_final_leverage, calculate_position_size,
  validate_rr_ratio,
}
use leverage_agnet.Risk.Stops.{activate_kill_switch-refuses, validations_fail_closed}
use leverage_agnet.Risk.Types.{PositionSizingResult, pro, UserContext, AccountState}
use leverage_agnet.Risk.Validators.{
  check_portfolio_risk, check_same_coin_position, check_position_count_limit,
  check_consecutive_losses, check_weekly_loss_limit, check_daily_loss_limit, leb_text,
  check_trading_hours, check_confidence, check_rr_ratio, check_stop_loss_exists, check_kill_switch,
  clock_text,
}
use leverage_agnet.Common.{ap, arith, leb, false, ◌∷◌, true, some, none, [], ℕ, ◌*◌, ◌+◌, ◌≡◌, refl}
use leverage_agnet.Common.Calendar.{Time, minute}
use leverage_agnet.Common.Fixed.{thousandths}
use leverage_agnet.Common.Integer.{pos, ℤ}
use leverage_agnet.Trading.{
  system_error, ValidationResult, kill_switch, intraday, refusal, TradeCandidate, leverage_capped,
  long, RawSignal,
}
use leverage_agnet.Safety.KillSwitch.{next_monday_utc, next_midnight_utc}
mod Halts
mod Sizes

abbrev pub usd : ℕ → ℤ
usd n = pos (n * 1000)

abbrev pub ctx : UserContext ℤ
ctx = record {
  user_id = 7;
  plan = pro;
  risk_profile = moderate;
  risk_per_trade = pos 20;
  max_leverage = 10;
  max_concurrent_positions = 3;
  daily_loss_limit_pct = pos 30;
  is_trading_active = true;
  allowed_hours_start = some (clock_text 1320);
  allowed_hours_end = some (clock_text 360);
}

abbrev pub account : AccountState ℤ
account = record {
  available_balance = usd 10000;
  total_balance = usd 10000;
  open_positions_risk_usdt = pos 0;
}

abbrev pub no_losses : Losses ℤ
no_losses = record {
  daily_loss_usdt = pos 0;
  weekly_loss_usdt = pos 0;
  weekly_limit_usdt = usd 1000;
  consecutive_losses = 0;
}

abbrev pub signal : RawSignal ℤ
signal = record {
  direction = long;
  coin = "BTC";
  symbol = "BTCUSDT";
  confidence = pos 900;
  entry_price = usd 100;
  take_profit = some (usd 104);
  stop_loss = some (usd 98);
  leverage = 15;
}

-- 23:30 on a Thursday
abbrev pub late : Time
late = 23 * 60 * minute + 30 * minute

abbrev pub noon : Time
noon = 12 * 60 * minute

-- the leverage is capped by the plan and by the user
signal_is_approved :
    (validate thousandths memory signal ctx account no_losses 0 none 0 late empty_server).0
    ≡ record {
      approved = true;
      rejection_code = none;
      quantity = some (usd 100);
      final_leverage = some 10;
      margin_required_usdt = some (usd 1000);
      max_loss_usdt = some (usd 200);
      max_profit_usdt = some (usd 400);
      rr_ratio = some (usd 2);
      pre_action = none;
      warnings = leverage_capped ∷ [];
      failed_checks = [];
    }
unfolding validate validate_steps check_kill_switch signal_refusal check_stop_loss_exists
    check_rr_ratio validate_rr_ratio check_confidence check_trading_hours leb_text check_losses
    check_daily_loss_limit check_weekly_loss_limit check_consecutive_losses check_position
    check_position_count_limit check_same_coin_position size_signal calculate_position_size
    resolve_final_leverage round_to_lot_size approve_size validate_position_size
    check_portfolio_risk
signal_is_approved = refl

validate-IsAdmissible_example :
    let v =
      (validate thousandths memory signal ctx account no_losses 0 none 0 late empty_server).0 in
    IsAdmissible thousandths signal ctx account no_losses 0 none late
    × ((size : PositionSizingResult ℤ) × IsSizedBy thousandths signal ctx account v size)
validate-IsAdmissible_example =
    validate-IsAdmissible thousandths memory signal ctx account no_losses 0 none 0 late empty_server
      (ap (λ (v : ValidationResult ℤ). v.approved) signal_is_approved)

abbrev pub candidate : TradeCandidate ℤ
candidate = record {
  action = long;
  coin = "BTC";
  symbol = "BTCUSDT";
  strategy_type = intraday;
  expected_holding_minutes = 30;
  entry_price = usd 100;
  stop_loss = some (usd 98);
  take_profit = some (usd 104);
  leverage = 5;
  margin_ratio = pos 20;
  notional_size = usd 1000;
  actual_rr = usd 2;
  min_required_rr = usd 2;
  expected_net_profit = some (usd 38);
  expected_net_loss = some (usd 22);
  liquidation_price = some (usd 81);
  spread_bps = usd 1;
  slippage_bps = usd 1;
}

candidate_is_approved :
    validate_candidate thousandths memory candidate ctx account no_losses 0 none none none none 0
      noon empty_server
    ≡ (
      record {
        approved = true;
        rejection_code = none;
        quantity = some (usd 10);
        final_leverage = some 5;
        margin_required_usdt = some (usd 200);
        max_loss_usdt = some (usd 22);
        max_profit_usdt = some (usd 38);
        rr_ratio = some (usd 2);
        pre_action = none;
        warnings = [];
        failed_checks = [];
      },
      empty_server,
    )
unfolding validate_candidate candidate_steps check_kill_switch entry_tests strategy_thresholds
    check_losses check_daily_loss_limit check_weekly_loss_limit check_consecutive_losses
    position_tests check_position_count_limit outcome_tests check_portfolio_risk approve_candidate
candidate_is_approved = refl

validate_candidate-IsSafe_example :
    let v =
      (validate_candidate thousandths memory candidate ctx account no_losses 0 none none none none 0
        noon empty_server).0 in
    IsSafe thousandths candidate ctx account no_losses 0 none none none none
    × IsSized thousandths candidate v
validate_candidate-IsSafe_example =
    validate_candidate-IsSafe thousandths memory candidate ctx account no_losses 0 none none none
      none 0 noon empty_server
      (ap (λ (x : ValidationResult ℤ × Server ℤ). x.0.approved) candidate_is_approved)

candidate-IsSafe : IsSafe thousandths candidate ctx account no_losses 0 none none none none
candidate-IsSafe =
    (validate_candidate-IsSafe thousandths memory candidate ctx account no_losses 0 none none none
      none 0 noon empty_server
      (ap (λ (x : ValidationResult ℤ × Server ℤ). x.0.approved) candidate_is_approved)).0

validate_candidate-approves_example :
    ((validate_candidate thousandths memory candidate ctx account no_losses 0 none none none none 0
        noon empty_server).0.approved
      ≡ true)
    × ((validate_candidate thousandths memory candidate ctx account no_losses 0 none none none none
          0 noon empty_server).1
        ≡ empty_server)
validate_candidate-approves_example =
    validate_candidate-approves thousandths memory memory_view memory-IsReliable ctx no_losses 0
      noon empty_server refl (omega arith) candidate account 0 none none none none candidate-IsSafe
      refl
