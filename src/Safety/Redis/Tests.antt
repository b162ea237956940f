-- ===== src/Safety/Redis/Tests.antt =====
-- The Redis store on concrete states, in thousandths, with a Redis in memory.
use leverage_agnet.Redis.Memory.{memory, memory_view, memory-IsReliable, empty_server, Server}
use leverage_agnet.Risk.KillSwitch.{
  halt_trading, until_next_monday_utc, compute_until, activate_global, weekly_loss_limit,
}
use leverage_agnet.Risk.Validators.{check_kill_switch}
use leverage_agnet.Common.{arith, ◌≡◌, ◌*◌, refl, false, true, some, none}
use leverage_agnet.Common.Calendar.{Time, minute}
use leverage_agnet.Common.Fixed.{thousandths}
use leverage_agnet.Common.Integer.{ℤ, pos}
use leverage_agnet.Safety.Redis.{
  drawdown_to_json, drawdown_from_json, emergency_to_json, emergency_from_json, disconnect_to_json,
  disconnect_from_json, ks_to_json, ks_from_json,
}
use leverage_agnet.Safety.Redis.Lifts.{
  set_daily_kill_switch-lifts, set_emergency_state-blocks, set_emergency_state-lifts,
}
use leverage_agnet.Safety.Redis.RoundTrips.{json_round_trips}
use leverage_agnet.Safety.Redis.Shared.{
  set_kill_switch-check_kill_switch, get_kill_switch-set_kill_switch,
}
use leverage_agnet.Safety.Redis.Store.{
  daily_switch, set_daily_kill_switch, set_weekly_kill_switch, get_daily_kill_switch,
  get_weekly_kill_switch, set_emergency_state,
}
use leverage_agnet.Safety.Types.{
  new_emergency, KillSwitchState, EmergencyState, DrawdownState, DisconnectState, daily_loss_limit,
  user,
}

abbrev hour : Time
hour = 60 * minute

-- a halt up to the second midnight
abbrev halted_daily : KillSwitchState ℤ
halted_daily = record {
  user_id = 7;
  is_halted = true;
  halt_reason = some daily_loss_limit;
  halt_until = some (24 * hour);
  current_loss_usdt = pos 320000;
  period_start_balance = pos 10000000;
}

abbrev small_loss : KillSwitchState ℤ
small_loss = record {
  user_id = 7;
  is_halted = false;
  halt_reason = none;
  halt_until = none;
  current_loss_usdt = pos 1000;
  period_start_balance = pos 10000000;
}

abbrev stop : EmergencyState
stop = record {
  is_active = true;
  activated_at = some hour;
  activated_by = some user;
  reason = 3;
  requires_manual_resume = true;
}

abbrev drop_state : DrawdownState ℤ
drop_state = record {
  peak_balance = pos 10000000;
  current_balance = pos 7900000;
  is_halted = true;
  warning_sent = true;
}

abbrev failures : DisconnectState
failures = record {
  consecutive_failures = 3;
  last_failure_at = some hour;
  halt_until = some (2 * hour);
  is_halted = true;
}

json_round_trips_example :
    (ks_from_json thousandths 7 (ks_to_json halted_daily) ≡ halted_daily)
    × (disconnect_from_json {A = ℤ} (disconnect_to_json failures) ≡ some failures)
    × (emergency_from_json {A = ℤ} (emergency_to_json stop) ≡ some stop)
    × (drawdown_from_json thousandths (drawdown_to_json drop_state) ≡ drop_state)
json_round_trips_example = json_round_trips thousandths halted_daily failures stop drop_state

get_kill_switch-set_kill_switch_example :
    ((get_daily_kill_switch thousandths memory 7
        (20 * hour)
        (set_daily_kill_switch memory 7 halted_daily hour empty_server).1).0
      ≡ some halted_daily)
    × ((get_weekly_kill_switch thousandths memory 7
          (20 * hour)
          (set_weekly_kill_switch memory 7 halted_daily hour empty_server).1).0
        ≡ some halted_daily)
get_kill_switch-set_kill_switch_example =
    get_kill_switch-set_kill_switch memory memory_view memory-IsReliable thousandths halted_daily
      hour empty_server (20 * hour) (omega arith)

set_kill_switch-check_kill_switch_example :
    (check_kill_switch memory 7
      (20 * hour)
      (set_daily_kill_switch memory 7 halted_daily hour empty_server).1).0
    ≡ some false
set_kill_switch-check_kill_switch_example =
    set_kill_switch-check_kill_switch memory memory_view memory-IsReliable daily_switch 7
      halted_daily hour empty_server (20 * hour) refl (omega arith)

set_emergency_state-blocks_example :
    (check_kill_switch memory 9
      (90 * hour)
      (set_emergency_state memory stop hour (empty_server {A = ℤ})).1).0
    ≡ some false
set_emergency_state-blocks_example =
    set_emergency_state-blocks memory memory_view memory-IsReliable stop hour empty_server 9
      (90 * hour) refl

-- an operator's global kill switch, lifted by a stored emergency state that is not active
abbrev operated : Server ℤ
operated = (activate_global memory 5 hour empty_server).1

set_emergency_state-lifts_example :
    (check_kill_switch memory 9
      (2 * hour)
      (set_emergency_state memory new_emergency hour operated).1).0
    ≡ some true
unfolding activate_global
set_emergency_state-lifts_example =
    set_emergency_state-lifts memory memory_view memory-IsReliable new_emergency hour operated 9
      (2 * hour) refl

set_daily_kill_switch-lifts_example :
    ((check_kill_switch memory 7
        (2 * hour)
        (halt_trading memory 7 weekly_loss_limit 0 hour (empty_server {A = ℤ})).1).0
      ≡ some false)
    × ((check_kill_switch memory 7
          (3 * hour)
          (set_daily_kill_switch memory 7 small_loss
            (2 * hour)
            (halt_trading memory 7 weekly_loss_limit 0 hour (empty_server {A = ℤ})).1).1).0
        ≡ some true)
unfolding compute_until until_next_monday_utc
set_daily_kill_switch-lifts_example =
    set_daily_kill_switch-lifts memory memory_view memory-IsReliable 7 small_loss 0 hour (2 * hour)
      empty_server (omega arith) refl refl (3 * hour)
