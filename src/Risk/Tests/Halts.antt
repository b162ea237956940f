-- ===== src/Risk/Tests/Halts.antt =====
-- Hours and halts on concrete times.
use leverage_agnet.Redis.{Client}
use leverage_agnet.Redis.Memory.{memory-IsReliable, memory_view, Server, memory, empty_server}
use leverage_agnet.Risk.Candidate.{reject_candidate, activate_kill_switch, validate_candidate}
use leverage_agnet.Risk.Engine.{reject_with, validate}
use leverage_agnet.Risk.Halts.{
  resume_trading-check_kill_switch, halt_trading-blocks, halt_trading-ends,
}
use leverage_agnet.Risk.Hours.{check_trading_hours-window}
use leverage_agnet.Risk.KillSwitch.{
  weekly_loss_limit, resume_trading, until_next_monday_utc, halt_trading, compute_until,
}
use leverage_agnet.Risk.Stops.{activate_kill_switch-refuses, validations_fail_closed}
use leverage_agnet.Risk.Tests.{candidate, no_losses, account, signal, late, noon, ctx}
use leverage_agnet.Risk.Validators.{check_trading_hours, check_kill_switch}
use leverage_agnet.Common.{arith, leb, false, true, some, none, [], ◌*◌, ◌+◌, ◌≡◌, refl}
use leverage_agnet.Common.Calendar.{Time, minute}
use leverage_agnet.Common.Fixed.{thousandths}
use leverage_agnet.Common.Integer.{ℤ}
use leverage_agnet.Trading.{system_error, kill_switch, refusal}

check_trading_hours-window_example : check_trading_hours ctx noon ≡ leb 840 480
check_trading_hours-window_example =
    check_trading_hours-window ctx 1320 360 refl refl (omega arith) (omega arith) noon

-- a weekly halt on a Thursday runs on Sunday at noon, and is over on Monday
abbrev sunday : Time
sunday = 3 * (24 * 60 * minute) + noon

abbrev monday : Time
monday = 4 * (24 * 60 * minute) + minute

abbrev weekly_halt : Server ℤ
weekly_halt = (halt_trading memory 7 weekly_loss_limit 0 late empty_server).1

halt_trading-blocks_example :
    (check_kill_switch memory 7 sunday
      (halt_trading memory 7 weekly_loss_limit 0 late (empty_server {A = ℤ})).1).0
    ≡ some false
unfolding compute_until until_next_monday_utc
halt_trading-blocks_example =
    halt_trading-blocks memory memory_view memory-IsReliable 7 weekly_loss_limit 0 late empty_server
      sunday (omega arith)

halt_trading-ends_example :
    (check_kill_switch memory 7 monday
      (halt_trading memory 7 weekly_loss_limit 0 late (empty_server {A = ℤ})).1).0
    ≡ some true
unfolding compute_until until_next_monday_utc
halt_trading-ends_example =
    halt_trading-ends memory memory_view memory-IsReliable 7 weekly_loss_limit 0 late empty_server
      monday (omega arith, omega arith)

resume_trading-check_kill_switch_example :
    (check_kill_switch memory 7 sunday (resume_trading memory 7 late (weekly_halt)).1).0 ≡ some true
unfolding halt_trading compute_until
resume_trading-check_kill_switch_example =
    resume_trading-check_kill_switch memory memory_view memory-IsReliable 7 weekly_loss_limit 0 late
      weekly_halt sunday

-- a Redis that cannot be reached
abbrev unreachable : Client ℤ (Server ℤ)
unreachable = record {
  exists = λ k t s. (none, s);
  get = λ k t s. (none, s);
  set = λ k v ex t s. (none, s);
  delete = λ ks t s. (none, s);
}

validations_fail_closed_example :
    ((validate thousandths unreachable signal ctx account no_losses 0 none 0 noon empty_server).0
      ≡ refusal system_error [] [])
    × ((validate_candidate thousandths unreachable candidate ctx account no_losses 0 none none none
          none 0 noon empty_server).0
        ≡ refusal system_error [] [])
validations_fail_closed_example =
    validations_fail_closed thousandths unreachable ctx account no_losses 0 none 0 noon empty_server
      signal candidate none none none refl

activate_kill_switch-refuses_example :
    let r = (activate_kill_switch memory 7 0 noon empty_server).1 in
    (validate thousandths memory signal ctx account no_losses 0 none 0 sunday r
      ≡ (reject_with kill_switch, r))
    × (validate_candidate thousandths memory candidate ctx account no_losses 0 none none none none 0
          sunday r
        ≡ (reject_candidate kill_switch [], r))
activate_kill_switch-refuses_example =
    activate_kill_switch-refuses thousandths memory memory_view memory-IsReliable 7 0 noon
      empty_server ctx account no_losses 0 none sunday signal candidate none none none refl
