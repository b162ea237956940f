-- ===== src/Decision/Final.antt =====
-- agents/decision/final_decision.py: `decide_final_action`.
use leverage_agnet.Common.{not, ◌&&◌, false, if◌then◌else◌, true, or_else, Bool, some, none, Option}
use leverage_agnet.Common.Number.{Number}
use leverage_agnet.Trading.{
  is_trade, hold, unknown, reject, approve, Action, FinalDecision, ValidationResult, ReviewResult,
  ReviewAction, TradeCandidate, StrategyType,
}
pub mod Rules

-- the settings that `_cfg` looks up, each of which may be missing
pub record Settings (A : Type 0) : Type 0 where
  pub min_expected_net_profit : Option A
  pub min_expected_net_profit_pct : Option A
  pub reject_on_critical_contradiction : Option Bool
  pub min_ai_review_confidence : Option A
  pub ai_review_required : Option Bool

-- a configuration: its own settings, and those of its `decision` section, if it has one
pub record Config (A : Type 0) : Type 0 where
  pub top : Settings A
  pub decision : Option (Settings A)

-- `_cfg`: the section's value goes before the configuration's own
abbrev pub section_value : {A V : Type 0} → (Settings A → Option V) → Option (Settings A) → Option V
section_value field none = none
section_value field (some s) = field s

abbrev pub first_some : {V : Type 0} → Option V → Option V → Option V
first_some none b = b
first_some (some a) b = some a

abbrev pub cfg : {A V : Type 0} → (Settings A → Option V) → Option (Config A) → V → V
cfg field none d = d
cfg field (some c) d = or_else (first_some (section_value field c.decision) (field c.top)) d

abbrev pub is_unknown : StrategyType → Bool
is_unknown unknown = true
is_unknown _ = false

abbrev pub is_reject : ReviewAction → Bool
is_reject reject = true
is_reject approve = false

module _ {A : Type 0} (F : Number A) where
  -- `MIN_EXPECTED_NET_PROFIT_PCT` and `MIN_AI_REVIEW_CONFIDENCE`
  abbrev pub min_expected_net_profit_pct : A
  min_expected_net_profit_pct = F.decimal 1 3

  abbrev pub min_ai_review_confidence : A
  min_ai_review_confidence = F.decimal 70 2

  -- `_min_expected_profit`: here the configuration's own value goes before the section's
  abbrev pub explicit_profit : Option (Config A) → Option A
  explicit_profit none = none
  explicit_profit (some c) =
      first_some c.top.min_expected_net_profit
        (section_value (λ s. s.min_expected_net_profit) c.decision)

  unfoldable pub min_expected_profit : TradeCandidate A → Option (Config A) → A
  min_expected_profit candidate config = or_else (explicit_profit config) (
      F.mul candidate.notional_size
        (cfg (λ s. s.min_expected_net_profit_pct) config min_expected_net_profit_pct))

  -- `expected_net_profit is None or expected_net_profit <= minimum`
  abbrev pub too_small : Option A → A → Bool
  too_small none minimum = true
  too_small (some p) minimum = F.leb p minimum

  -- the rules over a candidate, a risk result and a review that are all there
  unfoldable pub passes_review : TradeCandidate A → ReviewResult A → Option (Config A) → Bool
  passes_review c review config =
      if is_reject review.review_action
      then false
      else if review.critical_contradiction
          && cfg (λ s. s.reject_on_critical_contradiction) config true
      then false
      else if F.ltb review.confidence
          (cfg (λ s. s.min_ai_review_confidence) config min_ai_review_confidence)
      then false
      else not (too_small c.expected_net_profit (min_expected_profit c config))

  unfoldable pub final_action :
      Option (TradeCandidate A)
      → Option (ReviewResult A)
      → Option (ValidationResult A)
      → Option (Config A)
      → Action
  final_action none review risk config = hold
  final_action (some c) review none config = hold
  final_action (some c) none (some v) config = hold
  final_action (some c) (some review) (some v) config =
      if not (is_trade c.action)
      then hold
      else if is_unknown c.strategy_type
      then hold
      else if not v.approved
      then hold
      else if passes_review c review config
      then c.action
      else hold

  unfoldable pub decide_final_action :
      Option (TradeCandidate A)
      → Option (ReviewResult A)
      → Option (ValidationResult A)
      → Option (Config A)
      → FinalDecision A
  decide_final_action c review v config = record {
    action = final_action c review v config;
    candidate = c;
    ai_review = review;
    risk_result = v;
  }
