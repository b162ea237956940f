-- ===== src/Redis.antt =====
-- The Redis client that agents/risk and backend/app/safety share. Redis is not code of the
-- repository: the client is a parameter, and what a theorem needs of it is `IsReliable`. The values
-- are those that the program stores. A text that json.dumps or isoformat makes stands as the value
-- that it encodes, so that json.loads and fromisoformat give this value back.
pub mod Memory
pub mod Yields
use text.Mathlib.Text.{◌==◌ as ◌=text=◌}
use leverage_agnet.Common.{
  true, ℕ, ◌+◌, ◌*◌, ◌==◌, ◌&&◌, ◌≡◌, Bool, false, Option, none, some, List, [], ◌∷◌, String, leb,
  is_some, if◌then◌else◌,
}
use leverage_agnet.Common.Calendar.{Time, second}
use leverage_agnet.Safety.Types.{UserId}

-- The keys, by the constants that name them: REDIS_KEY_GLOBAL_KILL_SWITCH (also _SHARED_GLOBAL),
-- REDIS_KEY_USER_KILL_SWITCH, REDIS_KEY_USER_HALT (also _SHARED_HALT), REDIS_KEY_USER_COOLDOWN,
-- _DAILY_KS, _WEEKLY_KS, _DISCONNECT, _EMERGENCY, _DRAWDOWN.
pub data Key : Type 0 where
  global_kill_switch disconnect_key emergency_key : Key
  user_kill_switch user_halt user_cooldown : UserId → Key
  daily_key weekly_key drawdown_key : UserId → Key

abbrev kind : Key → ℕ
kind global_kill_switch = 0
kind disconnect_key = 1
kind emergency_key = 2
kind (user_kill_switch _) = 3
kind (user_halt _) = 4
kind (user_cooldown _) = 5
kind (daily_key _) = 6
kind (weekly_key _) = 7
kind (drawdown_key _) = 8

abbrev owner : Key → UserId
owner (user_kill_switch u) = u
owner (user_halt u) = u
owner (user_cooldown u) = u
owner (daily_key u) = u
owner (weekly_key u) = u
owner (drawdown_key u) = u
owner _ = 0

abbrev pub same_key : Key → Key → Bool
same_key j k = (kind j == kind k) && (owner j == owner k)

-- a field of a stored dict; `note` is a text that is kept and shown, and never read
pub data Field (A : Type 0) : Type 0 where
  null : Field A
  flag : Bool → Field A
  count : ℕ → Field A
  number : A → Field A
  word : String → Field A
  note : ℕ → Field A
  iso : Time → Field A

-- a stored text: that of a dict, or that of a point in time
pub data Value (A : Type 0) : Type 0 where
  object : List (String × Field A) → Value A
  moment : Time → Value A

-- `data.get(name)`
abbrev pub field : {A : Type 0} → String → List (String × Field A) → Option (Field A)
field name [] = none
field name ((n, v) ∷ d) = if name =text= n then some v else field name d

-- A call on a state: `none` is an exception.
abbrev pub Io : Type 0 → Type 0 → Type 0
Io R B = R → Option B × R

abbrev pub and_then : {R B C : Type 0} → Option B → R → (B → Io R C) → Option C × R
and_then none r f = (none, r)
and_then (some b) r f = f b r

infixl 5 ◌>>=◌ ◌>>◌
abbrev pub ◌>>=◌ : {R B C : Type 0} → Io R B → (B → Io R C) → Io R C
m >>= f = λ r. and_then (m r).0 (m r).1 f

abbrev pub ◌>>◌ : {R B C : Type 0} → Io R B → Io R C → Io R C
m >> k = m >>= λ _. k

abbrev pub pure : {R B : Type 0} → B → Io R B
pure b = λ r. (some b, r)

abbrev pub raise : {R B : Type 0} → Io R B
raise = λ r. (none, r)

abbrev pub of_option : {R B : Type 0} → Option B → Io R B
of_option none = raise
of_option (some b) = pure b

-- The calls that the program makes, at the time of the server. `ex` is in seconds.
pub record Client (A R : Type 0) : Type 0 where
  pub exists : Key → Time → Io R Bool
  pub get : Key → Time → Io R (Option (Value A))
  pub set : Key → Value A → Option ℕ → Time → Io R (Unit {0})
  pub delete : List Key → Time → Io R (Unit {0})

abbrev pub has_ended : Option ℕ → Time → Time → Bool
has_ended none start now = false
has_ended (some ex) start now = leb (start + ex * second) now

abbrev pub is_among : Key → List Key → Bool
is_among j [] = false
is_among j (k ∷ ks) = if same_key j k then true else is_among j ks

-- No call raises, a key holds what was set last until it is deleted or its time is over, and a call
-- touches no other key.
pub record IsReliable {A R : Type 0} (c : Client A R) (view : R → Time → Key → Option (Value A))
    : Type 0 where
  pub exists_lem : (k : Key) (t : Time) (r : R) → c.exists k t r ≡ (some (is_some (view r t k)), r)
  pub get_lem : (k : Key) (t : Time) (r : R) → c.get k t r ≡ (some (view r t k), r)
  pub set_returns :
      (k : Key) (v : Value A) (ex : Option ℕ) (t : Time) (r : R) → (c.set k v ex t r).0 ≡ some tt
  pub set_lem :
      (k : Key) (v : Value A) (ex : Option ℕ) (t : Time) (r : R) (now : Time) (j : Key)
      → view (c.set k v ex t r).1 now j
        ≡ (if same_key j k then (if has_ended ex t now then none else some v) else view r now j)
  pub delete_returns : (ks : List Key) (t : Time) (r : R) → (c.delete ks t r).0 ≡ some tt
  pub delete_lem :
      (ks : List Key) (t : Time) (r : R) (now : Time) (j : Key)
      → view (c.delete ks t r).1 now j ≡ (if is_among j ks then none else view r now j)
