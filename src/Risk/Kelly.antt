-- ===== src/Risk/Kelly.antt =====
-- agents/risk/kelly.py and the statistics of agents/risk/sizing_models.py. The texts of the reasons
-- are left out.
use leverage_agnet.Risk.Sizing.{equal}
use leverage_agnet.Common.{◌==◌, ltb, if◌then◌else◌, Bool, ℕ, false, true}
use leverage_agnet.Common.Number
use leverage_agnet.Common.Number.{Number}

-- what the sizing reads of a `TradeStatistics`
pub record TradeStatistics (A : Type 0) : Type 0 where
  pub total_trades : ℕ
  pub winning_trades : ℕ
  pub avg_win_usdt : A
  pub avg_loss_usdt : A

pub record KellyResult (A : Type 0) : Type 0 where
  pub full_kelly_fraction : A
  pub applied_fraction : A
  pub kelly_multiplier : A
  pub win_rate : A
  pub avg_odds : A
  pub sample_size : ℕ
  pub is_valid : Bool

module _ {A : Type 0} (F : Number A) where
  -- `RISK_PER_TRADE_MIN`, `RISK_PER_TRADE_MAX`
  abbrev pub risk_per_trade_min : A
  risk_per_trade_min = F.decimal 5 3

  abbrev pub risk_per_trade_max : A
  risk_per_trade_max = F.decimal 50 3

  -- `max(low, min(high, value))`
  abbrev pub clip : A → A → A → A
  clip low high value = Number.max F low (if F.ltb value high then value else high)

  abbrev pub win_rate_of : TradeStatistics A → A
  win_rate_of stats =
      if stats.total_trades == 0
      then Number.nil F
      else F.div (F.decimal stats.winning_trades 0) (F.decimal stats.total_trades 0)

  abbrev pub avg_odds_of : TradeStatistics A → A
  avg_odds_of stats =
      if equal F stats.avg_loss_usdt (Number.nil F)
      then Number.nil F
      else F.div stats.avg_win_usdt stats.avg_loss_usdt

  abbrev pub full_kelly_of : A → A → A
  full_kelly_of win_rate avg_odds =
      F.div (F.sub (F.mul win_rate avg_odds) (F.sub (Number.one F) win_rate)) avg_odds

  abbrev kelly_result : TradeStatistics A → A → Bool → A → A → KellyResult A
  kelly_result stats kelly_fraction is_valid full applied = record {
    full_kelly_fraction = full;
    applied_fraction = applied;
    kelly_multiplier = kelly_fraction;
    win_rate = win_rate_of stats;
    avg_odds = avg_odds_of stats;
    sample_size = stats.total_trades;
    is_valid = is_valid;
  }

  unfoldable pub calculate_kelly : TradeStatistics A → A → ℕ → A → KellyResult A
  calculate_kelly stats kelly_fraction min_sample_size fallback_risk_pct =
      let full = full_kelly_of (win_rate_of stats) (avg_odds_of stats) in
      let clipped = if F.ltb (Number.one F) full then Number.one F else full in
      if ltb stats.total_trades min_sample_size
      then kelly_result stats kelly_fraction false fallback_risk_pct fallback_risk_pct
      else if F.ltb (win_rate_of stats) (F.decimal 1 2)
      then kelly_result stats kelly_fraction false (Number.nil F) fallback_risk_pct
      else if F.ltb (avg_odds_of stats) (F.decimal 1 2)
      then kelly_result stats kelly_fraction false (Number.nil F) fallback_risk_pct
      else if F.leb full (Number.nil F)
      then kelly_result stats kelly_fraction false full fallback_risk_pct
      else kelly_result stats kelly_fraction true clipped
          (clip risk_per_trade_min risk_per_trade_max (F.mul clipped kelly_fraction))

  unfoldable pub recommended_kelly_fraction : ℕ → A
  recommended_kelly_fraction sample_size =
      if ltb sample_size 20
      then Number.nil F
      else if ltb sample_size 50
      then F.decimal 125 3
      else if ltb sample_size 100
      then F.decimal 25 2
      else F.decimal 5 1

  -- `capped_risk_pct`
  abbrev pub capped_risk_pct : KellyResult A → A
  capped_risk_pct k = clip risk_per_trade_min risk_per_trade_max k.applied_fraction
