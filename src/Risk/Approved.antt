-- ===== src/Risk/Approved.antt =====
-- What an approval of a candidate guarantees, whatever Redis answers.
use leverage_agnet.Redis.{Client}
use leverage_agnet.Redis.Yields.{Yields-if, Yields-bind}
use leverage_agnet.Risk.Approvals.{
  first_refusal-none, All-split, of_option-Yields, check_losses-Yields, not-false,
  unless_code-Yields, IsWithinLosses, caught-cases,
}
use leverage_agnet.Risk.Candidate.{
  approve_candidate, candidate_steps, reject_candidate, validate_candidate,
}
use leverage_agnet.Risk.Checks.{
  held_too_long, in_funding_window, max_slippage, strategy_thresholds, spread_exceeds,
  liquidation_buffer, liquidation_safe, exceeds, min_profit, margin_cap, projected_loss,
  outcome_tests, leverage_cap, position_tests, global_min_rr, entry_tests, strategy_min_rr,
}
use leverage_agnet.Risk.Engine.{Losses}
use leverage_agnet.Risk.Settings.{
  isolated, is_isolated, is_news, setting, is_volatile, first_refusal, RiskConfig, FundingContext,
}
use leverage_agnet.Risk.Types.{OpenPosition, AccountState, UserContext}
use leverage_agnet.Risk.Validators.{
  check_portfolio_risk, check_kill_switch, positive, check_position_count_limit,
}
use leverage_agnet.Common.{
  or_else, ◌++◌, [], ◌==◌, All, List, arith, is_some, ◌&&◌, Option, ℕ, refl, some, none, not, ◌≡◌,
  false, true, ◌≤◌, ◌<◌,
}
use leverage_agnet.Common.Calendar.{Time}
use leverage_agnet.Common.Number
use leverage_agnet.Common.Number.{Number}
use leverage_agnet.Trading.{Warning, Code, MarketRegime, ValidationResult, TradeCandidate, is_trade}
use leverage_agnet.Decision.Final.{too_small, is_unknown}

pub record IsSafe {A : Type 0} (F : Number A) (c : TradeCandidate A) (ctx : UserContext A)
    (account : AccountState A) (losses : Losses A) (open_count : ℕ)
    (same_coin : Option OpenPosition) (regime : Option MarketRegime)
    (funding : Option (FundingContext A)) (config : Option (RiskConfig A)) : Type 0 where
  pub is_active : ctx.is_trading_active ≡ true
  pub is_directed : is_trade c.action ≡ true
  pub has_stop : positive F c.stop_loss ≡ true
  pub has_target : positive F c.take_profit ≡ true
  pub is_known : is_unknown c.strategy_type ≡ false
  pub keeps_strategy_rr : F.ltb c.actual_rr (strategy_min_rr F c) ≡ false
  pub keeps_global_rr : F.ltb c.actual_rr (global_min_rr F config) ≡ false
  pub has_leverage : (c.leverage == 0) ≡ false
  pub leverage_at_most : c.leverage ≤ leverage_cap F ctx config
  pub keeps_margin : F.ltb (margin_cap F config) c.margin_ratio ≡ false
  pub keeps_losses :
      IsWithinLosses F
        (F.mul account.total_balance ctx.daily_loss_limit_pct)
        (projected_loss F c ctx account)
        losses
  pub has_room : check_position_count_limit open_count ctx ≡ true
  pub is_alone : same_coin ≡ none
  pub is_profitable : too_small F c.expected_net_profit (min_profit F c config) ≡ false
  pub keeps_loss :
      exceeds F c.expected_net_loss (F.mul account.total_balance ctx.risk_per_trade) ≡ false
  pub keeps_liquidation :
      liquidation_safe F c.action c.stop_loss c.liquidation_price (liquidation_buffer F config)
      ≡ true
  pub keeps_spread : spread_exceeds F c (strategy_thresholds F c.strategy_type) ≡ false
  pub keeps_slippage : F.ltb (max_slippage F config) c.slippage_bps ≡ false
  pub avoids_funding : in_funding_window F funding config ≡ false
  pub avoids_volatility :
      (is_volatile (or_else regime MarketRegime.unknown)
        && setting (λ s. s.high_volatility_block) config true)
      ≡ false
  pub avoids_news :
      (is_news (or_else regime MarketRegime.unknown)
        && setting (λ s. s.news_event_block) config true)
      ≡ false
  pub no_martingale : setting (λ s. s.allow_martingale) config false ≡ false
  pub no_averaging : setting (λ s. s.allow_averaging_down) config false ≡ false
  pub is_isolated_margin : is_isolated (setting (λ s. s.mode) config isolated) ≡ true
  pub holding_at_least : 0 < c.expected_holding_minutes
  pub holding_at_most : held_too_long F c (strategy_thresholds F c.strategy_type) ≡ false
  pub keeps_portfolio :
      check_portfolio_risk F account (or_else c.expected_net_loss (Number.nil F)) ctx.risk_profile
      ≡ true

-- the order that an approval asks for
pub record IsSized {A : Type 0} (F : Number A) (c : TradeCandidate A) (v : ValidationResult A)
    : Type 0 where
  pub leverage : v.final_leverage ≡ some c.leverage
  pub margin : v.margin_required_usdt ≡ some (F.div c.notional_size (F.decimal c.leverage 0))
  pub loss : v.max_loss_usdt ≡ c.expected_net_loss

no_position :
    {A : Type 0} (open_count : ℕ) (ctx : UserContext A) (same_coin : Option OpenPosition)
    → (not (check_position_count_limit open_count ctx) && not (is_some same_coin)) ≡ false
    → is_some same_coin ≡ false
    → (check_position_count_limit open_count ctx ≡ true) × (same_coin ≡ none)
no_position open_count ctx none p q = (ground (arith, p), refl)
no_position open_count ctx (some x) p q = cc

module _ {A R : Type 0} (F : Number A) (redis : Client A R) (c : TradeCandidate A)
    (ctx : UserContext A) (account : AccountState A) (losses : Losses A) (open_count : ℕ)
    (same_coin : Option OpenPosition) (regime : Option MarketRegime)
    (funding : Option (FundingContext A)) (config : Option (RiskConfig A)) (reason : ℕ)
    (now : Time) where
  abbrev Holds : ValidationResult A → Type 0
  Holds v =
      v.approved ≡ true
      → IsSafe F c ctx account losses open_count same_coin regime funding config × IsSized F c v

  refused : (code : Code) (w : List Warning) → Holds (reject_candidate code w)
  refused code w h = cc

  approved-IsSafe :
      All (λ t. t.0 ≡ false) (entry_tests F c ctx config)
      → IsWithinLosses F
          (F.mul account.total_balance ctx.daily_loss_limit_pct)
          (projected_loss F c ctx account)
          losses
      → All (λ t. t.0 ≡ false) (position_tests F ctx open_count same_coin)
      → All (λ t. t.0 ≡ false) (outcome_tests F c ctx account regime funding config)
      → (c.leverage == 0) ≡ false
      → IsSafe F c ctx account losses open_count same_coin regime funding config
  unfolding entry_tests position_tests outcome_tests
  approved-IsSafe e l p o z = record {
    is_active = not-false _ e.0;
    is_directed = not-false _ e.1.0;
    has_stop = not-false _ e.1.1.0;
    has_target = not-false _ e.1.1.1.0;
    is_known = e.1.1.1.1.0;
    keeps_strategy_rr = e.1.1.1.1.1.0;
    keeps_global_rr = e.1.1.1.1.1.1.0;
    has_leverage = z;
    leverage_at_most = let h = e.1.1.1.1.1.1.1.0 in ground (arith, h);
    keeps_margin = e.1.1.1.1.1.1.1.1.0;
    keeps_losses = l;
    has_room = (no_position open_count ctx same_coin p.0 p.1.0).0;
    is_alone = (no_position open_count ctx same_coin p.0 p.1.0).1;
    is_profitable = o.0;
    keeps_loss = o.1.0;
    keeps_liquidation = not-false _ o.1.1.1.0;
    keeps_spread = o.1.1.1.1.0;
    keeps_slippage = o.1.1.1.1.1.0;
    avoids_funding = o.1.1.1.1.1.1.0;
    avoids_volatility = o.1.1.1.1.1.1.1.0;
    avoids_news = o.1.1.1.1.1.1.1.1.0;
    no_martingale = o.1.1.1.1.1.1.1.1.1.1.1.0;
    no_averaging = o.1.1.1.1.1.1.1.1.1.1.1.1.0;
    is_isolated_margin = not-false _ o.1.1.1.1.1.1.1.1.1.1.1.1.1.0;
    holding_at_least = let h = o.1.1.1.1.1.1.1.1.1.0 in ground (arith, h);
    holding_at_most = o.1.1.1.1.1.1.1.1.1.1.0;
    keeps_portfolio = not-false _ o.1.1.1.1.1.1.1.1.1.1.1.1.1.1.0;
  }

  sized :
      (w : List Warning) (v : ValidationResult A)
      → approve_candidate F c w ≡ some v
      → ((c.leverage == 0) ≡ false) × IsSized F c v
  unfolding approve_candidate
  sized w v h = (
    ground (arith, h),
    record { leverage = ground (arith, h); margin = ground (arith, h); loss = ground (arith, h) },
  )

  -- An approval of a candidate, whatever Redis answers and from whatever state, means that trading is
  -- active, the candidate has a direction, a known strategy, a stop and a target, its reward to risk
  -- keeps both minimums, its leverage, a natural number here, is not 0 and at most that of the
  -- configuration and of the user, the limits on losses leave room for it, no position of its coin is open, its
  -- liquidation lies beyond the stop, and its loss keeps the limits of the trade and of the
  -- portfolio. The approved order has the candidate's leverage, margin and loss.
  pub validate_candidate-IsSafe :
      (r : R)
      → let v =
          (validate_candidate F redis c ctx account losses open_count same_coin regime funding
            config reason now r).0 in
        v.approved ≡ true
        → IsSafe F c ctx account losses open_count same_coin regime funding config × IsSized F c v
  unfolding validate_candidate candidate_steps
  validate_candidate-IsSafe r =
      caught-cases Holds _ (λ h. cc)
        (Yields-bind Holds (check_kill_switch redis ctx.user_id now) _ r λ ok r'.
          Yields-if Holds (not ok) _ _ r' (λ _. refused _ _)
            λ _.
              unless_code-Yields Holds (first_refusal (entry_tests F c ctx config)) [] _ r'
                (λ code. refused code [])
                λ e.
                  check_losses-Yields F redis Holds ctx _ _ losses reason now reject_candidate _
                    refused
                    (λ l w r''.
                      unless_code-Yields Holds
                        (first_refusal (
                          position_tests F ctx open_count same_coin
                          ++ outcome_tests F c ctx account regime funding config))
                        w _ r'' (λ code. refused code w)
                        (λ po. of_option-Yields Holds (approve_candidate F c w) r'' λ v a _.
                          let po' =
                            All-split (λ t. t.0 ≡ false) (position_tests F ctx open_count same_coin)
                              (outcome_tests F c ctx account regime funding config)
                              (first_refusal-none _ po) in
                          let s = sized w v a in
                          (approved-IsSafe (first_refusal-none _ e) l po'.0 po'.1 s.0, s.1)))
                    r')
