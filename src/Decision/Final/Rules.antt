-- ===== src/Decision/Final/Rules.antt =====
-- When the final decision is a trade.
use leverage_agnet.Common.{
  ◌⊎◌, ◌&&◌, arith, false, ◌↔◌, true, ◌≡◌, is_some, refl, Option, some, none,
}
use leverage_agnet.Common.Number.{Number}
use leverage_agnet.Trading.{approve, hold, is_trade, TradeCandidate, ReviewResult, ValidationResult}
use leverage_agnet.Decision.Final.{
  is_unknown, Config, passes_review, final_action, decide_final_action, cfg, too_small,
  min_ai_review_confidence, min_expected_profit,
}

-- every layer's consent to a candidate
pub record IsAgreed {A : Type 0} (F : Number A) (c : TradeCandidate A) (review : ReviewResult A)
    (v : ValidationResult A) (config : Option (Config A)) : Type 0 where
  pub is_directed : is_trade c.action ≡ true
  pub is_known : is_unknown c.strategy_type ≡ false
  pub is_approved : v.approved ≡ true
  pub is_reviewed : review.review_action ≡ approve
  pub is_consistent :
      (review.critical_contradiction && cfg (λ s. s.reject_on_critical_contradiction) config true)
      ≡ false
  pub is_confident :
      F.ltb review.confidence
        (cfg (λ s. s.min_ai_review_confidence) config (min_ai_review_confidence F))
      ≡ false
  pub is_profitable : too_small F c.expected_net_profit (min_expected_profit F c config) ≡ false

module _ {A : Type 0} (F : Number A) where
  -- With a candidate, a review and a risk result, the decision is a trade exactly if all layers
  -- agree: the candidate has a direction and a known strategy, the risk result approves, the
  -- reviewer approves with enough confidence and no decisive contradiction, and the expected net
  -- profit is above the minimum. The decision is to hold, or the
  -- candidate's own direction.
  pub decide_final_action-IsAgreed :
      (c : TradeCandidate A) (review : ReviewResult A) (v : ValidationResult A)
      (config : Option (Config A))
      → let d = decide_final_action F (some c) (some review) (some v) config in
        ((is_trade d.action ≡ true) ↔ IsAgreed F c review v config)
        × ((d.action ≡ hold) ⊎ (d.action ≡ c.action))
  unfolding decide_final_action final_action passes_review
  decide_final_action-IsAgreed c review v config =
      ((λ h. ground arith, λ h. ground arith), ground arith)

  -- Without a candidate, a review or a risk result the decision is to hold.
  pub decide_final_action-missing :
      (c : Option (TradeCandidate A)) (review : Option (ReviewResult A))
      (v : Option (ValidationResult A)) (config : Option (Config A))
      → (is_some c && (is_some review && is_some v)) ≡ false
      → (decide_final_action F c review v config).action ≡ hold
  unfolding decide_final_action final_action
  decide_final_action-missing none review v config h = refl
  decide_final_action-missing (some c) review none config h = refl
  decide_final_action-missing (some c) none (some v) config h = refl
  decide_final_action-missing (some c) (some review) (some v) config h = cc
