-- ===== src/PositionManager/Types.antt =====
-- agents/position_manager/models.py. A function of the source that changes its position returns
-- here the changed one, in its result; one that raises returns the error and changes nothing.
use leverage_agnet.Common.{some, none, not, if◌then◌else◌, ℕ, String, Option, true, false, Bool}
use leverage_agnet.Common.Calendar.{Time}
use leverage_agnet.Common.Number
use leverage_agnet.Common.Number.{Number}
use leverage_agnet.Trading.{long, Action}
use leverage_agnet.Safety.Types.{UserId}

pub data PositionStatus : Type 0 where
  status_open partially_closed closed : PositionStatus

-- `PositionState`. A validation may lack the margin and the maximal loss that it hands over.
pub record PositionState (A : Type 0) : Type 0 where
  pub user_id : UserId
  pub coin : String
  pub symbol : String
  pub direction : Action
  pub status : PositionStatus
  pub entry_price : A
  pub take_profit : A
  pub stop_loss : A
  pub liquidation_price : A
  pub current_price : A
  pub quantity : A
  pub original_quantity : A
  pub leverage : ℕ
  pub margin_used : Option A
  pub original_margin : Option A
  pub original_risk_usdt : Option A
  pub realized_pnl : A
  pub dca_count : ℕ
  pub opened_at : Time
  pub closed_at : Option Time
  pub close_reason : Option String

-- what a call may raise
pub data Failure : Type 0 where
  assertion_error value_error type_error division_by_zero : Failure

pub data Result (B : Type 0) : Type 0 where
  ok : B → Result B
  raises : Failure → Result B

-- `is_open`
abbrev pub is_open_status : PositionStatus → Bool
is_open_status status_open = true
is_open_status partially_closed = true
is_open_status closed = false

abbrev pub is_open : {A : Type 0} → PositionState A → Bool
is_open p = is_open_status p.status

-- `direction == "LONG"`
abbrev pub is_long : Action → Bool
is_long long = true
is_long _ = false

pub record OpenResult (A : Type 0) : Type 0 where
  pub position : PositionState A
  pub entry_fee : A

pub record CloseResult (A : Type 0) : Type 0 where
  pub position : PositionState A
  pub closed_quantity : A
  pub gross_pnl : A
  pub fee : A
  pub net_pnl : A
  pub pnl_pct : A
  pub is_partial : Bool
  pub close_reason : String

-- the rejections of `DCAEligibility`, by the rule of TRADING_RULES.md behind each
pub data DcaReason : Type 0 where
  eligible direction_differs limit_reached premature too_risky daily_loss cooldown : DcaReason
  weekly_loss drawdown : DcaReason

pub record DcaResult (A : Type 0) : Type 0 where
  pub position : PositionState A
  pub added_quantity : A
  pub added_margin : A
  pub new_avg_entry : A
  pub dca_fee : A

pub record TpSlUpdate (A : Type 0) : Type 0 where
  pub position : PositionState A
  pub old_tp : Option A
  pub old_sl : Option A
  pub new_tp : Option A
  pub new_sl : Option A

pub data LiquidationAction : Type 0 where
  nothing warning partial_close full_close : LiquidationAction

pub record LiquidationCheck (A : Type 0) : Type 0 where
  pub distance_pct : A
  pub action : LiquidationAction
  pub current_price : A
  pub liquidation_price : A

pub data Hit : Type 0 where
  tp_hit sl_hit : Hit

-- `TickResult`, and the position that the tick has changed
pub record TickResult (A : Type 0) : Type 0 where
  pub position : PositionState A
  pub tp_sl_status : Option Hit
  pub close_result : Option (CloseResult A)
  pub liq_check : LiquidationCheck A

pub record AccountStats (A : Type 0) : Type 0 where
  pub daily_loss_usdt : A
  pub daily_loss_limit_usdt : A
  pub weekly_loss_usdt : A
  pub weekly_loss_limit_usdt : A
  pub in_cooldown : Bool

module _ {A : Type 0} (F : Number A) where
  -- `TAKER_FEE_RATE`, `MAINTENANCE_MARGIN_RATE` and the other constants
  abbrev pub taker_fee_rate : A
  taker_fee_rate = F.decimal 4 4

  abbrev pub maintenance_margin_rate : A
  maintenance_margin_rate = F.decimal 4 3

  -- `unrealized_pnl`
  abbrev pub unrealized_pnl : PositionState A → A
  unrealized_pnl p =
      if not (is_open p)
      then Number.nil F
      else if is_long p.direction
      then F.mul (F.sub p.current_price p.entry_price) p.quantity
      else F.mul (F.sub p.entry_price p.current_price) p.quantity

  -- `drawdown_pct`
  abbrev pub drawdown_of : PositionState A → Option A → Result A
  drawdown_of p none = raises type_error
  drawdown_of p (some margin) = ok (
      if F.leb margin (Number.nil F)
      then Number.nil F
      else if F.leb (Number.nil F) (unrealized_pnl p)
      then Number.nil F
      else F.div (Number.abs F (unrealized_pnl p)) margin)

  abbrev pub drawdown_pct : PositionState A → Result A
  drawdown_pct p = drawdown_of p p.original_margin

abbrev pub max_dca_count : ℕ
max_dca_count = 2
