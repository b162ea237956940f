-- ===== src/Decision/Generator.antt =====
-- agents/decision/candidate_generator.py: `generate_trade_candidate`. The texts of the reasons and
-- the strategy's name are left out.
use Prim.Native.Nat.{ℕ, min}
use leverage_agnet.Risk.Sizing.{equal}
use leverage_agnet.Common.{
  ◌∷◌, ltb, not, ◌||◌, ◌&&◌, ◌==◌, if◌then◌else◌, or_else, Bool, String, Option, false, some, none,
  [],
}
use leverage_agnet.Common.Number
use leverage_agnet.Common.Number.{Number}
use leverage_agnet.Trading.{is_trade, Action, long, short, hold, StrategyType, TradeCandidate}
use leverage_agnet.Decision.Exits.{
  GeneratorConfig, first_positive, get_price, generator_setting, Exits, compute_exits,
}
use leverage_agnet.Decision.Final.{is_unknown}
use leverage_agnet.Decision.Inputs.{
  StrategySelectionResult, min_of, StrategySignal, DerivativesScore, TechnicalResult, read, hundred,
  NewsScore, read_option, MarketSnapshot, clamp, SignalScore,
}
use leverage_agnet.PositionManager.Types.{is_long}

-- what the generator reads of an account
pub record GeneratorAccount (A : Type 0) : Type 0 where
  pub available_balance : Option A
  pub balance : Option A
  pub total_balance : Option A

module _ {A : Type 0} (F : Number A) where
  -- `x or default`: 0 is no value
  abbrev pub truthy_or : Option A → A → A
  truthy_or none d = d
  truthy_or (some a) d = if equal F a (Number.nil F) then d else a

  -- `_combined_risk`
  unfoldable pub candidate_risk :
      Option (SignalScore A) → Option (NewsScore A) → Option (DerivativesScore A) → A
  candidate_risk chart news derivatives = F.quantize 2 (
      clamp F
        (F.add
          (F.add
            (F.mul (truthy_or (read (λ c. c.risk_score) chart) (F.decimal 50 0)) (F.decimal 4 1))
            (F.mul (truthy_or (read (λ n. n.news_risk) news) (Number.nil F)) (F.decimal 3 1)))
          (F.mul (truthy_or (read (λ d. d.derivatives_risk) derivatives) (Number.nil F))
            (F.decimal 3 1)))
        (Number.nil F) (hundred F))

  abbrev adjusted : Option A → Option A → A
  adjusted score adjustment = F.quantize 2 (
      clamp F (F.add (truthy_or score (Number.nil F)) (truthy_or adjustment (Number.nil F)))
        (Number.nil F) (hundred F))

  -- `_adjusted_scores`
  unfoldable pub long_score_of : Option (SignalScore A) → Option (DerivativesScore A) → A
  long_score_of chart d =
      adjusted (read (λ c. c.long_score) chart) (read (λ d. d.long_score_adjustment) d)

  unfoldable pub short_score_of : Option (SignalScore A) → Option (DerivativesScore A) → A
  short_score_of chart d =
      adjusted (read (λ c. c.short_score) chart) (read (λ d. d.short_score_adjustment) d)

  -- `_liquidation_price`
  unfoldable pub liquidation_price_of : Action → A → ℕ → Option A
  liquidation_price_of action entry leverage =
      let step = F.div (Number.one F) (F.decimal leverage 0) in
      if leverage == 0
      then none
      else if is_long action
      then some (F.quantize 2 (F.mul entry (F.sub (Number.one F) step)))
      else if is_trade action
      then some (F.quantize 2 (F.mul entry (F.add (Number.one F) step)))
      else none

-- the arguments of `generate_trade_candidate`
pub record GeneratorInput (A : Type 0) : Type 0 where
  pub coin : String
  pub symbol : String
  pub market_snapshot : Option (MarketSnapshot A)
  pub technical_result : Option (TechnicalResult A)
  pub strategy_signal : Option (StrategySignal A)
  pub chart_score : Option (SignalScore A)
  pub news_score : Option (NewsScore A)
  pub derivatives_score : Option (DerivativesScore A)
  pub strategy_selection : Option (StrategySelectionResult A)
  pub account_state : Option (GeneratorAccount A)
  pub config : Option (GeneratorConfig A)

module _ {A : Type 0} (F : Number A) (i : GeneratorInput A) where
  abbrev pub strategy_of : StrategyType
  strategy_of = or_else (read (λ s. s.strategy_type) i.strategy_selection) StrategyType.unknown

  abbrev pub holding_of : ℕ
  holding_of = or_else (read (λ s. s.expected_holding_minutes) i.strategy_selection) 0

  -- `min_required_rr`, with the global minimum in place of none
  abbrev pub required_rr : A
  required_rr =
      let rr = or_else (read (λ s. s.min_required_rr) i.strategy_selection) (Number.nil F) in
      if F.leb rr (Number.nil F) && not (is_unknown strategy_of) then F.decimal 20 1 else rr

  abbrev pub spread_bps_of : A
  spread_bps_of =
      generator_setting (λ s. s.spread_bps) i.config
        (or_else (read_option (λ m. m.spread_bps) i.market_snapshot) (Number.nil F))

  abbrev pub slippage_bps_of : A
  slippage_bps_of = generator_setting (λ s. s.slippage_bps) i.config (F.decimal 30 1)

  abbrev pub entry_of : Option A
  entry_of = get_price F i.market_snapshot i.technical_result i.strategy_signal

  -- `_make_hold`
  unfoldable pub make_hold : TradeCandidate A
  make_hold = record {
    action = hold;
    coin = i.coin;
    symbol = i.symbol;
    strategy_type = strategy_of;
    expected_holding_minutes = holding_of;
    entry_price = F.quantize 2 (or_else entry_of (Number.nil F));
    stop_loss = none;
    take_profit = none;
    leverage = 0;
    margin_ratio = Number.nil F;
    notional_size = Number.nil F;
    actual_rr = Number.nil F;
    min_required_rr = required_rr;
    expected_net_profit = none;
    expected_net_loss = none;
    liquidation_price = none;
    spread_bps = spread_bps_of;
    slippage_bps = slippage_bps_of;
  }

  abbrev pub max_leverage_of : ℕ
  max_leverage_of = generator_setting (λ s. s.max_leverage) i.config 10

  -- `int(x or max_leverage)`
  abbrev pub requested_leverage : Option ℕ → ℕ
  requested_leverage none = max_leverage_of
  requested_leverage (some n) = if n == 0 then max_leverage_of else n

  -- `max(1, min(requested, max))`
  unfoldable pub candidate_leverage : ℕ
  candidate_leverage =
      let l =
        min (requested_leverage (read_option (λ s. s.leverage) i.strategy_signal))
          max_leverage_of in
      if ltb 1 l then l else 1

  abbrev pub max_margin_of : A
  max_margin_of = generator_setting (λ s. s.max_entry_margin_ratio) i.config (F.decimal 5 2)

  unfoldable pub candidate_margin_ratio : A
  candidate_margin_ratio = F.quantize 6 (
      clamp F
        (or_else (read_option (λ s. s.margin_ratio) i.strategy_signal) (
          generator_setting (λ s. s.default_margin_ratio) i.config
            (min_of F (F.decimal 2 2) max_margin_of)))
        (Number.nil F) max_margin_of)

  abbrev pub balance_of : A
  balance_of =
      or_else
        (first_positive F (
          read_option (λ a. a.available_balance) i.account_state
          ∷ read_option (λ a. a.balance) i.account_state
          ∷ read_option (λ a. a.total_balance) i.account_state
          ∷ some (generator_setting (λ s. s.default_account_balance) i.config (Number.nil F))
          ∷ []))
        (Number.nil F)

  unfoldable pub candidate_notional : A
  candidate_notional =
      F.quantize 4
        (F.mul (F.mul balance_of candidate_margin_ratio) (F.decimal candidate_leverage 0))

  -- the fees and the slippage of both sides
  abbrev pub fees_of : A
  fees_of = F.quantize 4 (F.mul (F.mul candidate_notional (F.decimal 5 4)) (F.decimal 2 0))

  abbrev pub slippage_cost_of : A
  slippage_cost_of =
      F.quantize 4 (
        F.mul (F.div (F.mul candidate_notional slippage_bps_of) (F.decimal 10000 0))
          (F.decimal 2 0))

  -- the distance of a price from the entry, in the direction of a profit
  abbrev pub gain : Action → A → A → A
  gain action entry price = if is_long action then F.sub price entry else F.sub entry price

  abbrev pub loss : Action → A → A → A
  loss action entry price = if is_long action then F.sub entry price else F.sub price entry

  abbrev pub gross : A → A → A
  gross distance entry = F.quantize 4 (F.div (F.mul candidate_notional distance) entry)

  unfoldable pub make_candidate : Action → A → Exits A → TradeCandidate A
  make_candidate action entry e =
      let up = gain action entry e.target in
      let down = loss action entry e.stop in
      record {
        action = action;
        coin = i.coin;
        symbol = i.symbol;
        strategy_type = strategy_of;
        expected_holding_minutes = holding_of;
        entry_price = F.quantize 2 entry;
        stop_loss = some e.stop;
        take_profit = some e.target;
        leverage = candidate_leverage;
        margin_ratio = candidate_margin_ratio;
        notional_size = candidate_notional;
        actual_rr = F.quantize 4 (F.div up down);
        min_required_rr = required_rr;
        expected_net_profit =
            some (F.quantize 4 (F.sub (F.sub (gross up entry) fees_of) slippage_cost_of));
        expected_net_loss =
            some (F.quantize 4 (F.add (F.add (gross down entry) fees_of) slippage_cost_of));
        liquidation_price = liquidation_price_of F action entry candidate_leverage;
        spread_bps = spread_bps_of;
        slippage_bps = slippage_bps_of;
      }

  -- the test of the two prices, and the candidate
  unfoldable pub with_exits : Action → A → Option (Exits A) → TradeCandidate A
  with_exits action entry none = make_hold
  with_exits action entry (some e) =
      if F.leb (gain action entry e.target) (Number.nil F)
        || F.leb (loss action entry e.stop) (Number.nil F)
      then make_hold
      else make_candidate action entry e

  unfoldable pub directed : Action → A → TradeCandidate A
  directed action entry =
      with_exits action entry
        (compute_exits F action entry i.technical_result i.strategy_signal required_rr i.config)

  abbrev pub long_strong : Bool
  long_strong =
      F.leb (generator_setting (λ s. s.min_long_score) i.config (F.decimal 75 0))
        (long_score_of F i.chart_score i.derivatives_score)

  abbrev pub short_strong : Bool
  short_strong =
      F.leb (generator_setting (λ s. s.min_short_score) i.config (F.decimal 75 0))
        (short_score_of F i.chart_score i.derivatives_score)

  unfoldable pub with_entry : Option A → TradeCandidate A
  with_entry none = make_hold
  with_entry (some entry) =
      if F.leb entry (Number.nil F)
      then make_hold
      else if long_strong && short_strong
      then make_hold
      else if long_strong
      then directed long entry
      else if short_strong
      then directed short entry
      else make_hold

  abbrev pub total_risk : A
  total_risk = candidate_risk F i.chart_score i.news_score i.derivatives_score

  abbrev pub max_risk : A
  max_risk = generator_setting (λ s. s.max_risk_score) i.config (F.decimal 55 0)

  unfoldable pub generate_trade_candidate : TradeCandidate A
  generate_trade_candidate =
      if is_unknown strategy_of
      then make_hold
      else if or_else (read (λ n. n.no_trade_flag) i.news_score) false
      then make_hold
      else if F.ltb max_risk total_risk
      then make_hold
      else with_entry entry_of
