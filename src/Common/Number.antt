-- ===== src/Common/Number.antt =====
-- The numbers that the program computes with. The source uses Python's `float` and
-- `decimal.Decimal`, neither of which is code of the repository: a type of numbers and its
-- operations is a parameter of the model, and what a theorem needs of it is a hypothesis.
use Prim.Native.Nat.{ℕ}
use mathlib.Core.Bool.{Bool, true, not, ◌||◌}
use mathlib.Core.Path.{◌≡◌}
use leverage_agnet.Common.Tests.{if◌then◌else◌}

pub record Number (A : Type 0) : Type 0 where
  -- `decimal m k` is the literal m / 10 ^ k
  pub decimal : ℕ → ℕ → A
  pub add : A → A → A
  pub sub : A → A → A
  pub mul : A → A → A
  pub div : A → A → A
  pub ltb : A → A → Bool
  pub leb : A → A → Bool
  -- `quantize k x` rounds x to k decimal places, `quantize_down` towards zero
  pub quantize : ℕ → A → A
  pub quantize_down : ℕ → A → A

-- The comparisons are those of a total order: no value is a NaN.
pub record IsOrdered {A : Type 0} (F : Number A) : Type 0 where
  pub leb_refl : (a : A) → F.leb a a ≡ true
  pub leb_trans : (a b c : A) → F.leb a b ≡ true → F.leb b c ≡ true → F.leb a c ≡ true
  pub leb_total : (a b : A) → (F.leb a b || F.leb b a) ≡ true
  pub ltb_not : (a b : A) → F.ltb a b ≡ not (F.leb b a)

module _ {A : Type 0} (F : Number A) where
  -- the literal 0
  abbrev pub nil : A
  nil = F.decimal 0 0

  abbrev pub one : A
  one = F.decimal 1 0

  -- `abs(x)`
  abbrev pub abs : A → A
  abs x = if F.ltb x nil then F.sub nil x else x

  -- `max(a, b)`: Python keeps the first unless the second is greater
  abbrev pub max : A → A → A
  max a b = if F.ltb a b then b else a
