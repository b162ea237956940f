-- ===== src/Risk/Validators.antt =====
-- agents/risk/validators.py. A check returns whether it passes; the texts of the reasons are left
-- out.
use Prim.Native.Nat.{ℕ, min}
use leverage_agnet.Portfolio.Types.{RiskProfile, aggressive, moderate, conservative}
use leverage_agnet.Redis.{
  pure, Io, Value, Client, ◌>>=◌, moment, object, user_kill_switch, global_kill_switch, user_halt,
  user_cooldown,
}
use leverage_agnet.Risk.Sizing.{validate_rr_ratio}
use leverage_agnet.Risk.Types.{
  cooldown_minutes, consecutive_loss_cooldown, daily_loss_warning_pct, consecutive_loss_halt,
  max_portfolio_risk, max_dca_count, plan_max_positions, daily_loss_caution_pct,
  daily_loss_halt_pct, min_confidence, max_portfolio_risk_aggressive, weekly_loss_halt_pct,
  AccountState, OpenPosition, UserContext,
}
use leverage_agnet.Common.{
  ◌*◌, is_some, ◌||◌, [], ◌++◌, ◌&&◌, ◌%◌, leb, ◌==◌, ltb, ◌∷◌, if◌then◌else◌, not, ◌/◌, ◌+◌, Bool,
  List, Option, false, true, some, none,
}
use leverage_agnet.Common.Calendar.{Time, minute}
use leverage_agnet.Common.Number
use leverage_agnet.Common.Number.{Number}
use leverage_agnet.Trading.{
  daily_loss_warning, daily_loss_caution, Warning, long, short, hold, Action, RawSignal, PreAction,
  close_existing, dca,
}
use leverage_agnet.Safety.Types.{UserId}

-- CHECK 0: any text under the halt key refuses, also one that is no dict
unfoldable pub check_kill_switch : {A R : Type 0} → Client A R → UserId → Time → Io R Bool
check_kill_switch redis user_id now = redis.exists global_kill_switch now >>= λ is_global.
    if is_global
    then pure false
    else (redis.exists (user_kill_switch user_id) now >>= λ is_user.
        if is_user
        then pure false
        else (redis.get (user_halt user_id) now >>= λ halt. pure (not (is_some halt))))

-- the codes of "HH:MM" for the time of the day
abbrev digits : ℕ → List ℕ
digits n = (48 + n / 10) ∷ (48 + n % 10) ∷ []

abbrev pub clock_text : ℕ → List ℕ
clock_text minutes = digits (minutes / 60) ++ 58 ∷ digits (minutes % 60)

abbrev pub minute_of_day : Time → ℕ
minute_of_day now = now / minute % 1440

-- Python's `<=` on texts
unfoldable pub leb_text : List ℕ → List ℕ → Bool
leb_text [] ys = true
leb_text (x ∷ xs) [] = false
leb_text (x ∷ xs) (y ∷ ys) = let rest = leb_text xs ys in if x == y then rest else ltb x y

abbrev pub in_range : List ℕ → List ℕ → List ℕ → Bool
in_range start end now =
    if leb_text start end
    then leb_text start now && leb_text now end
    else leb_text start now || leb_text now end

-- the hours that a user allows; with one of them missing, every time is allowed
abbrev pub in_hours : Option (List ℕ) → Option (List ℕ) → List ℕ → Bool
in_hours none end now = true
in_hours (some start) none now = true
in_hours (some start) (some end) now = in_range start end now

-- CHECK 9: the cooldown that is stored, if it still runs
abbrev pub cooldown_runs : {A : Type 0} → Option (Value A) → Time → Bool
cooldown_runs none now = false
cooldown_runs (some (moment end)) now = ltb now end
cooldown_runs (some (object _)) now = false

unfoldable pub check_consecutive_losses :
    {A R : Type 0} → Client A R → UserId → ℕ → Time → Io R Bool
check_consecutive_losses redis user_id consecutive_count now =
    redis.get (user_cooldown user_id) now >>= λ stored.
    if cooldown_runs stored now
    then pure false
    else if leb consecutive_loss_halt consecutive_count
    then pure false
    else if leb consecutive_loss_cooldown consecutive_count
    then (redis.set (user_cooldown user_id) (moment (now + cooldown_minutes * minute))
          (some (cooldown_minutes * 60)) now
        >>= λ _. pure false)
    else pure true

abbrev pub same_direction : Action → Action → Bool
same_direction long long = true
same_direction short short = true
same_direction hold hold = true
same_direction _ _ = false

-- CHECK 11
unfoldable pub check_same_coin_position : Action → Option OpenPosition → Bool × Option PreAction
check_same_coin_position direction none = (true, none)
check_same_coin_position direction (some existing) =
    if same_direction existing.direction direction
    then (if leb max_dca_count existing.dca_count then (false, none) else (true, some dca))
    else (true, some close_existing)

module _ {A : Type 0} where
  unfoldable pub check_trading_hours : UserContext A → Time → Bool
  check_trading_hours ctx now =
      in_hours ctx.allowed_hours_start ctx.allowed_hours_end (clock_text (minute_of_day now))

  -- CHECK 10
  unfoldable pub check_position_count_limit : ℕ → UserContext A → Bool
  check_position_count_limit open_count ctx =
      not (leb (min ctx.max_concurrent_positions (plan_max_positions ctx.plan)) open_count)

module _ {A : Type 0} (F : Number A) where
  abbrev pub positive : Option A → Bool
  positive none = false
  positive (some a) = not (F.leb a (Number.nil F))

  unfoldable pub check_stop_loss_exists : RawSignal A → Bool
  check_stop_loss_exists signal = positive signal.stop_loss

  abbrev pub rr_with : RawSignal A → Option A → Bool × A
  rr_with signal none = (false, Number.nil F)
  rr_with signal (some stop) =
      validate_rr_ratio F signal.entry_price signal.take_profit stop signal.direction

  unfoldable pub check_rr_ratio : RawSignal A → Bool × A
  check_rr_ratio signal = rr_with signal signal.stop_loss

  unfoldable pub check_confidence : RawSignal A → Bool
  check_confidence signal = not (F.ltb signal.confidence (min_confidence F))

  abbrev pub loss_ratio : A → A → A
  loss_ratio loss limit = if F.ltb (Number.nil F) limit then F.div loss limit else Number.nil F

  -- CHECK 7: whether the trade may go on, and the warning
  unfoldable pub check_daily_loss_limit : A → A → A → Bool × Option Warning
  check_daily_loss_limit daily_loss limit projected_new_loss =
      let ratio = loss_ratio daily_loss limit in
      if F.leb (daily_loss_halt_pct F) ratio
      then (false, none)
      else if F.ltb limit (F.add daily_loss projected_new_loss)
      then (false, none)
      else if F.leb (daily_loss_caution_pct F) ratio
      then (true, some daily_loss_caution)
      else if F.leb (daily_loss_warning_pct F) ratio
      then (true, some daily_loss_warning)
      else (true, none)

  unfoldable pub check_weekly_loss_limit : A → A → Bool
  check_weekly_loss_limit weekly_loss limit =
      if F.leb limit (Number.nil F)
      then true
      else not (F.leb (weekly_loss_halt_pct F) (F.div weekly_loss limit))

  abbrev pub limit_ratio : RiskProfile → A
  limit_ratio aggressive = max_portfolio_risk_aggressive F
  limit_ratio moderate = max_portfolio_risk F
  limit_ratio conservative = max_portfolio_risk F

  -- CHECK 13
  unfoldable pub check_portfolio_risk : AccountState A → A → RiskProfile → Bool
  check_portfolio_risk account new_risk profile = not (
      F.ltb (F.mul account.total_balance (limit_ratio profile))
        (F.add account.open_positions_risk_usdt new_risk))
