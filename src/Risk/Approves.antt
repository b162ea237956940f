-- ===== src/Risk/Approves.antt =====
-- When a candidate is approved: nothing but the checks that an approval guarantees stands between
-- a candidate and its approval.
use leverage_agnet.Redis.{Client, Value, Key, IsReliable, Io, user_cooldown}
use leverage_agnet.Redis.Yields.{answers}
use leverage_agnet.Risk.Approvals.{IsWithinLosses}
use leverage_agnet.Risk.Approved.{IsSafe}
use leverage_agnet.Risk.Candidate.{
  reject_candidate, approve_candidate, candidate_steps, validate_candidate,
}
use leverage_agnet.Risk.Checks.{outcome_tests, position_tests, entry_tests, liquidation_safe}
use leverage_agnet.Risk.Engine.{warning_list, check_losses, Losses}
use leverage_agnet.Risk.Halts.{check_kill_switch_lem, is_stopped}
use leverage_agnet.Risk.Settings.{RiskConfig, FundingContext, first_refusal}
use leverage_agnet.Risk.Types.{OpenPosition, AccountState, consecutive_loss_cooldown, UserContext}
use leverage_agnet.Risk.Validators.{check_daily_loss_limit, check_consecutive_losses, cooldown_runs}
use leverage_agnet.Common.{
  [], arith, ◌∙◌, ℕ, ◌∷◌, is_some, ◌++◌, Bool, All, Option, List, refl, some, none, not, ◌≡◌, false,
  true, ◌<◌,
}
use leverage_agnet.Common.Calendar.{Time}
use leverage_agnet.Common.Number.{Number}
use leverage_agnet.Trading.{TradeCandidate, MarketRegime, ValidationResult, Warning, Code, Action}

first_refusal-All :
    (tests : List (Bool × Code)) → All (λ t. t.0 ≡ false) tests → first_refusal tests ≡ none
first_refusal-All [] h = refl
first_refusal-All ((b, code) ∷ rest) h = rw h.0 (first_refusal-All rest h.1)

All-append : {X : Type 0} (P : X → Type 0) (xs ys : List X) → All P xs → All P ys → All P (xs ++ ys)
All-append P [] ys h g = g
All-append P (x ∷ xs) ys h g = (h.0, All-append P xs ys h.1 g)

has_liquidation :
    {A : Type 0} (F : Number A) (a : Action) (s l : Option A) (b : A)
    → liquidation_safe F a s l b ≡ true
    → not (is_some l) ≡ false
has_liquidation F a none l b h = cc
has_liquidation F a (some s) none b h = cc
has_liquidation F a (some s) (some l) b h = refl

module _ {A R : Type 0} (F : Number A) (redis : Client A R)
    (view : R → Time → Key → Option (Value A)) (ok : IsReliable redis view) (ctx : UserContext A)
    (losses : Losses A) (reason : ℕ) (now : Time) (r : R)
    (is_calm : cooldown_runs (view r now (user_cooldown ctx.user_id)) now ≡ false)
    (few_losses : losses.consecutive_losses < consecutive_loss_cooldown) where
  consecutive-passes :
      check_consecutive_losses redis ctx.user_id losses.consecutive_losses now r ≡ (some true, r)
  unfolding check_consecutive_losses
  consecutive-passes =
      answers (redis.get (user_cooldown ctx.user_id) now) _ r r _
        (ok.get_lem (user_cooldown ctx.user_id) now r)
      ∙ rw is_calm (ground arith)

  check_losses-admits :
      (daily_limit projected : A) (refuse : Code → List Warning → ValidationResult A)
      (admit : List Warning → Io R (ValidationResult A))
      → IsWithinLosses F daily_limit projected losses
      → check_losses F redis ctx daily_limit projected losses reason now refuse admit r
        ≡ admit
            (warning_list (check_daily_loss_limit F losses.daily_loss_usdt daily_limit projected).1)
            r
  unfolding check_losses
  check_losses-admits daily_limit projected refuse admit h =
      rw h.daily (rw h.weekly (rw consecutive-passes refl))

  module _ (c : TradeCandidate A) (account : AccountState A) (open_count : ℕ)
      (same_coin : Option OpenPosition) (regime : Option MarketRegime)
      (funding : Option (FundingContext A)) (config : Option (RiskConfig A))
      (safe : IsSafe F c ctx account losses open_count same_coin regime funding config) where
    entry_passes : first_refusal (entry_tests F c ctx config) ≡ none
    unfolding entry_tests
    entry_passes =
        let h : All (λ t. t.0 ≡ false) (entry_tests F c ctx config) = (
          rw safe.is_active refl,
          (
            rw safe.is_directed refl,
            (
              rw safe.has_stop refl,
              (
                rw safe.has_target refl,
                (
                  safe.is_known,
                  (
                    safe.keeps_strategy_rr,
                    (
                      safe.keeps_global_rr,
                      (
                        (let h = safe.leverage_at_most in ground (arith, h)),
                        (safe.keeps_margin, tt),
                      ),
                    ),
                  ),
                ),
              ),
            ),
          ),
        ) in
        first_refusal-All (entry_tests F c ctx config) h

    outcome_passes : All (λ t. t.0 ≡ false) (outcome_tests F c ctx account regime funding config)
    unfolding outcome_tests
    outcome_passes = (
      safe.is_profitable,
      (
        safe.keeps_loss,
        (
          has_liquidation F c.action c.stop_loss c.liquidation_price _ safe.keeps_liquidation,
          (
            rw safe.keeps_liquidation refl,
            (
              safe.keeps_spread,
              (
                safe.keeps_slippage,
                (
                  safe.avoids_funding,
                  (
                    safe.avoids_volatility,
                    (
                      safe.avoids_news,
                      (
                        (let h = safe.holding_at_least in ground (arith, h)),
                        (
                          safe.holding_at_most,
                          (
                            safe.no_martingale,
                            (
                              safe.no_averaging,
                              (rw safe.is_isolated_margin refl, (rw safe.keeps_portfolio refl, tt)),
                            ),
                          ),
                        ),
                      ),
                    ),
                  ),
                ),
              ),
            ),
          ),
        ),
      ),
    )

    position_passes : All (λ t. t.0 ≡ false) (position_tests F ctx open_count same_coin)
    unfolding position_tests
    position_passes = (rw safe.has_room refl, (rw safe.is_alone refl, tt))

    -- With a reliable Redis, a candidate that meets all that an approval guarantees is approved,
    -- and Redis stays as it is, if trading is not stopped, no cooldown runs, and the user has fewer
    -- than three losses in a row.
    pub validate_candidate-approves :
        is_stopped redis view ok ctx.user_id now r ≡ false
        → ((validate_candidate F redis c ctx account losses open_count same_coin regime funding
              config reason now r).0.approved
            ≡ true)
          × ((validate_candidate F redis c ctx account losses open_count same_coin regime funding
                config reason now r).1
              ≡ r)
    unfolding validate_candidate candidate_steps approve_candidate
    validate_candidate-approves running =
        let passes =
          first_refusal-All _ (All-append (λ t. t.0 ≡ false) _ _ position_passes outcome_passes) in
        let asked = check_kill_switch_lem redis view ok ctx.user_id now r in
        let lev = safe.has_leverage in
        rw asked (
          rw running (
            rw entry_passes (
              rw (check_losses-admits _ _ reject_candidate _ safe.keeps_losses)
                (rw passes (ground (arith, lev))))))
