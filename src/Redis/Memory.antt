-- ===== src/Redis/Memory.antt =====
-- A server that keeps its keys in memory: it meets what the theorems need of Redis.
use leverage_agnet.Redis.{has_ended, Time, Key, Value, Client, IsReliable, same_key, is_among}
use leverage_agnet.Common.{if◌then◌else◌, ℕ, arith, Option, is_some, refl, some, none}

abbrev pub Server : Type 0 → Type 0
Server A = Key → Option (Value A × Option ℕ × Time)

abbrev alive : {A : Type 0} → Option (Value A × Option ℕ × Time) → Time → Option (Value A)
alive none now = none
alive (some (v, ex, start)) now = if has_ended ex start now then none else some v

abbrev pub memory_view : {A : Type 0} → Server A → Time → Key → Option (Value A)
memory_view s now k = alive (s k) now

abbrev pub empty_server : {A : Type 0} → Server A
empty_server = λ _. none

abbrev pub memory : {A : Type 0} → Client A (Server A)
memory = record {
  exists = λ k t s. (some (is_some (memory_view s t k)), s);
  get = λ k t s. (some (memory_view s t k), s);
  set = λ k v ex t s. (some tt, λ j. if same_key j k then some (v, ex, t) else s j);
  delete = λ ks t s. (some tt, λ j. if is_among j ks then none else s j);
}

pub memory-IsReliable : {A : Type 0} → IsReliable (memory {A = A}) memory_view
memory-IsReliable = record {
  exists_lem = λ k t s. refl;
  get_lem = λ k t s. refl;
  set_returns = λ k v ex t s. refl;
  set_lem = λ k v ex t s now j. ground arith;
  delete_returns = λ ks t s. refl;
  delete_lem = λ ks t s now j. ground arith;
}
