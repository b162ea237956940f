-- ===== src/Risk/Signals.antt =====
-- What an approval of a signal guarantees, whatever Redis answers.
use Prim.Native.Nat.{ℕ}
use leverage_agnet.Redis.{Client}
use leverage_agnet.Redis.Yields.{Yields-if, Yields-bind}
use leverage_agnet.Risk.Approvals.{
  of_option-Yields, check_losses-Yields, unless-Yields, caught-cases, not-true, IsWithinLosses,
}
use leverage_agnet.Risk.Engine.{
  validate_steps, leverage_warnings, validate, position_warnings, check_position, size_signal,
  Losses, approve_size, signal_refusal,
}
use leverage_agnet.Risk.Sizing.{validate_position_size, resolve_final_leverage}
use leverage_agnet.Risk.Types.{
  min_confidence, OpenPosition, PositionSizingResult, plan_max_leverage, Plan, AccountState,
  UserContext,
}
use leverage_agnet.Risk.Validators.{
  check_kill_switch, check_same_coin_position, check_position_count_limit, check_trading_hours,
  check_portfolio_risk, check_confidence, positive, check_rr_ratio, check_stop_loss_exists,
}
use leverage_agnet.Common.{
  ◌++◌, refl, is_some, ◌||◌, List, Option, arith, some, none, not, ◌≡◌, false, true, ◌≤◌,
}
use leverage_agnet.Common.Calendar.{Time}
use leverage_agnet.Common.Number.{Number}
use leverage_agnet.Trading.{Warning, PreAction, Code, ValidationResult, is_trade, RawSignal}

-- The leverage is within all four caps.
pub resolve_final_leverage_bounds :
    (ai user : ℕ) (plan : Plan)
    → let l = resolve_final_leverage ai user plan in
      (l ≤ ai) × (l ≤ user) × (l ≤ plan_max_leverage plan) × (l ≤ 20)
unfolding resolve_final_leverage
resolve_final_leverage_bounds ai user plan = ground arith

-- the size that an approval asks for
pub record IsSizedBy {A : Type 0} (F : Number A) (signal : RawSignal A) (ctx : UserContext A)
    (account : AccountState A) (v : ValidationResult A) (size : PositionSizingResult A)
    : Type 0 where
  pub computed : size_signal F signal ctx account signal.stop_loss ≡ some size
  pub is_valid :
      validate_position_size F size account.available_balance signal.entry_price signal.symbol
      ≡ true
  pub keeps_portfolio : check_portfolio_risk F account size.max_loss ctx.risk_profile ≡ true
  pub quantity : v.quantity ≡ some size.quantity
  pub margin : v.margin_required_usdt ≡ some size.margin_used
  pub loss : v.max_loss_usdt ≡ some size.max_loss
  pub leverage :
      v.final_leverage ≡ some (resolve_final_leverage signal.leverage ctx.max_leverage ctx.plan)
  pub ratio : v.rr_ratio ≡ some (check_rr_ratio F signal).1

pub record IsAdmissible {A : Type 0} (F : Number A) (signal : RawSignal A) (ctx : UserContext A)
    (account : AccountState A) (losses : Losses A) (open_count : ℕ)
    (same_coin : Option OpenPosition) (now : Time) : Type 0 where
  pub is_directed : is_trade signal.direction ≡ true
  pub is_active : ctx.is_trading_active ≡ true
  pub has_stop : positive F signal.stop_loss ≡ true
  pub keeps_rr : (check_rr_ratio F signal).0 ≡ true
  pub is_confident : F.ltb signal.confidence (min_confidence F) ≡ false
  pub in_time : check_trading_hours ctx now ≡ true
  pub keeps_losses :
      IsWithinLosses F
        (F.mul account.total_balance ctx.daily_loss_limit_pct)
        (F.mul account.total_balance ctx.risk_per_trade)
        losses
  pub has_room : (check_position_count_limit open_count ctx || is_some same_coin) ≡ true
  pub keeps_coin : (check_same_coin_position signal.direction same_coin).0 ≡ true

module _ {A : Type 0} (F : Number A) (signal : RawSignal A) (ctx : UserContext A)
    (account : AccountState A) where
  refusal-absurd :
      (v : ValidationResult A) (o : Option Code) → v.approved ≡ false → v.approved ≡ true → ⊥
  refusal-absurd v o p q = cc

  approve_size-IsSizedBy :
      (pre : Option PreAction) (w : List Warning) (o : Option (PositionSizingResult A))
      (v : ValidationResult A)
      → size_signal F signal ctx account signal.stop_loss ≡ o
      → approve_size F signal ctx account pre w o ≡ some v
      → v.approved ≡ true
      → (size : PositionSizingResult A) × IsSizedBy F signal ctx account v size
  unfolding approve_size
  approve_size-IsSizedBy pre w none v e h a = cc
  approve_size-IsSizedBy pre w (some size) v e h a = (
    size,
    record {
      computed = e;
      is_valid = ground (arith, h, a);
      keeps_portfolio = ground (arith, h, a);
      quantity = ground (arith, h, a);
      margin = ground (arith, h, a);
      loss = ground (arith, h, a);
      leverage = ground (arith, h, a);
      ratio = ground (arith, h, a);
    },
  )

  check_position-IsSizedBy :
      (open_count : ℕ) (same_coin : Option OpenPosition) (w : List Warning) (v : ValidationResult A)
      → check_position F signal ctx account open_count same_coin w ≡ some v
      → v.approved ≡ true
      → ((check_position_count_limit open_count ctx || is_some same_coin) ≡ true)
        × ((check_same_coin_position signal.direction same_coin).0 ≡ true)
        × ((size : PositionSizingResult A) × IsSizedBy F signal ctx account v size)
  unfolding check_position
  check_position-IsSizedBy open_count same_coin w v h a = (
    ground (arith, h, a),
    ground (arith, h, a),
    approve_size-IsSizedBy (check_same_coin_position signal.direction same_coin).1
        (w
          ++ position_warnings (check_same_coin_position signal.direction same_coin).1
          ++ leverage_warnings F signal ctx)
        _ v refl (ground (arith, h, a)) a,
  )

  signal_refusal-refuses :
      (now : Time) (v : ValidationResult A)
      → signal_refusal F signal ctx now ≡ some v
      → v.approved ≡ false
  unfolding signal_refusal
  signal_refusal-refuses now v h = ground (arith, h)

  signal_refusal-none :
      (now : Time)
      → signal_refusal F signal ctx now ≡ none
      → (is_trade signal.direction ≡ true)
        × (ctx.is_trading_active ≡ true)
        × (check_stop_loss_exists F signal ≡ true)
        × ((check_rr_ratio F signal).0 ≡ true)
        × (check_confidence F signal ≡ true)
        × (check_trading_hours ctx now ≡ true)
  unfolding signal_refusal
  signal_refusal-none now h = ground (arith, h)

module _ {A R : Type 0} (F : Number A) (redis : Client A R) (signal : RawSignal A)
    (ctx : UserContext A) (account : AccountState A) (losses : Losses A) (open_count : ℕ)
    (same_coin : Option OpenPosition) (reason : ℕ) (now : Time) where
  abbrev Holds : ValidationResult A → Type 0
  Holds v =
      v.approved ≡ true
      → IsAdmissible F signal ctx account losses open_count same_coin now
        × ((size : PositionSizingResult A) × IsSizedBy F signal ctx account v size)

  admitted :
      signal_refusal F signal ctx now ≡ none
      → IsWithinLosses F
          (F.mul account.total_balance ctx.daily_loss_limit_pct)
          (F.mul account.total_balance ctx.risk_per_trade)
          losses
      → (w : List Warning) (v : ValidationResult A)
      → check_position F signal ctx account open_count same_coin w ≡ some v
      → Holds v
  unfolding check_stop_loss_exists check_confidence
  admitted s l w v h a =
      let p = check_position-IsSizedBy F signal ctx account open_count same_coin w v h a in
      let q = signal_refusal-none F signal ctx account now s in
      (
        record {
          is_directed = q.0;
          is_active = q.1;
          has_stop = q.2;
          keeps_rr = q.3;
          is_confident = not-true _ q.4;
          in_time = q.5;
          keeps_losses = l;
          has_room = p.0;
          keeps_coin = p.1;
        },
        p.2,
      )

  -- An approval of a signal, whatever Redis answers and from whatever state, means that the signal
  -- has a direction, a stop, enough reward to risk and confidence, that trading is active and the
  -- hour is allowed, that the limits on losses leave room for it, that the number of positions and
  -- an open position of its coin allow it, and that the approved quantity, margin, loss and leverage
  -- are those of the computed size, which passes the limits on sizes and on the portfolio's risk.
  pub validate-IsAdmissible :
      (r : R)
      → let v = (validate F redis signal ctx account losses open_count same_coin reason now r).0 in
        v.approved ≡ true
        → IsAdmissible F signal ctx account losses open_count same_coin now
          × ((size : PositionSizingResult A) × IsSizedBy F signal ctx account v size)
  unfolding validate validate_steps
  validate-IsAdmissible r =
      caught-cases Holds _ (λ h. cc)
        (Yields-bind Holds (check_kill_switch redis ctx.user_id now) _ r λ ok r'.
          Yields-if Holds (not ok) _ _ r' (λ _ h. cc)
            λ _.
              unless-Yields Holds (signal_refusal F signal ctx now) _ r'
                (λ v e h.
                  absurd (let f = signal_refusal-refuses F signal ctx account now v e in cc))
                λ e.
                  check_losses-Yields F redis Holds ctx _ _ losses reason now _ _ (λ _ _ h. cc)
                    (λ l w r''.
                      of_option-Yields Holds
                        (check_position F signal ctx account open_count same_coin w) r''
                        λ v a. admitted e l w v a)
                    r')
