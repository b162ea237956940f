-- ===== src/Risk/Ends.antt =====
-- The time to live of a stored halt, which is in whole seconds, against the end of the halt.
use leverage_agnet.Redis.{has_ended}
use leverage_agnet.Risk.KillSwitch.{ttl_of}
use leverage_agnet.Common.{arith, ◌+◌, Option, refl, some, none, ◌≡◌, false, true, ◌≤◌}
use leverage_agnet.Common.Calendar.{second, Time}

has_ended-before :
    (end now t : Time) → t + second ≤ end → has_ended (ttl_of (some end) now) now t ≡ false
has_ended-before end now t h = ground arith

has_ended-after :
    (end now t : Time)
    → end + second ≤ t
    → now ≤ end
    → has_ended (ttl_of (some end) now) now t ≡ true
has_ended-after end now t h g = ground arith

-- the points in time at which a halt, up to a second, is sure to run
abbrev pub RunsAt : Option Time → Time → Type 0
RunsAt none t = Unit
RunsAt (some end) t = t + second ≤ end

abbrev pub IsOver : Option Time → Time → Time → Type 0
IsOver none now t = ⊥
IsOver (some end) now t = (now ≤ end) × (end + second ≤ t)

pub runs-has_ended :
    (until : Option Time) (now t : Time)
    → RunsAt until t
    → has_ended (ttl_of until now) now t ≡ false
runs-has_ended none now t h = refl
runs-has_ended (some end) now t h = has_ended-before end now t h

pub over-has_ended :
    (until : Option Time) (now t : Time)
    → IsOver until now t
    → has_ended (ttl_of until now) now t ≡ true
over-has_ended none now t h = absurd h
over-has_ended (some end) now t h = has_ended-after end now t h.1 h.0
