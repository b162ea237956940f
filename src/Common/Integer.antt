-- ===== src/Common/Integer.antt =====
-- Integers over the native numbers, an instance of the numbers that the program computes with.
use Prim.Native.Nat.{ℕ, suc, ◌+◌, ◌-◌, ◌*◌, ◌/◌, ◌^◌}
use mathlib.Core.Bool.{Bool}
use native.Mathlib.Omega.{arith}
use leverage_agnet.Common.Number.{Number, IsOrdered}
use leverage_agnet.Common.Tests.{ltb, leb, if◌then◌else◌}

-- `negsuc n` is -(n + 1)
pub data ℤ : Type 0 where
  pos : ℕ → ℤ
  negsuc : ℕ → ℤ

abbrev pub pos_part : ℤ → ℕ
pos_part (pos n) = n
pos_part (negsuc _) = 0

abbrev pub neg_part : ℤ → ℕ
neg_part (pos _) = 0
neg_part (negsuc n) = suc n

abbrev pub sub_ℕ : ℕ → ℕ → ℤ
sub_ℕ a b = if leb b a then pos (a - b) else negsuc (b - a - 1)

infixl 65 ◌+ℤ◌ ◌-ℤ◌
infixl 70 ◌*ℤ◌
abbrev pub ◌+ℤ◌ : ℤ → ℤ → ℤ
a +ℤ b = sub_ℕ (pos_part a + pos_part b) (neg_part a + neg_part b)

abbrev pub ◌-ℤ◌ : ℤ → ℤ → ℤ
a -ℤ b = sub_ℕ (pos_part a + neg_part b) (neg_part a + pos_part b)

abbrev pub ◌*ℤ◌ : ℤ → ℤ → ℤ
a *ℤ b =
    sub_ℕ (pos_part a * pos_part b + neg_part a * neg_part b)
      (pos_part a * neg_part b + neg_part a * pos_part b)

-- the quotient towards zero
abbrev pub div_ℤ : ℤ → ℤ → ℤ
div_ℤ a b =
    sub_ℕ (pos_part a / pos_part b + neg_part a / neg_part b)
      (pos_part a / neg_part b + neg_part a / pos_part b)

abbrev pub ltb_ℤ : ℤ → ℤ → Bool
ltb_ℤ a b = ltb (pos_part a + neg_part b) (pos_part b + neg_part a)

abbrev pub leb_ℤ : ℤ → ℤ → Bool
leb_ℤ a b = leb (pos_part a + neg_part b) (pos_part b + neg_part a)

-- Whole numbers: a literal is cut to its whole part, and every whole number is on the grid of
-- `quantize`.
abbrev pub whole : Number ℤ
whole = record {
  decimal = λ m k. pos (m / 10 ^ k);
  add = ◌+ℤ◌;
  sub = ◌-ℤ◌;
  mul = ◌*ℤ◌;
  div = div_ℤ;
  ltb = ltb_ℤ;
  leb = leb_ℤ;
  quantize = λ k x. x;
  quantize_down = λ k x. x;
}

pub whole-IsOrdered : IsOrdered whole
whole-IsOrdered = record {
  leb_refl = λ a. ground arith;
  leb_trans = λ a b c p q. ground arith;
  leb_total = λ a b. ground arith;
  ltb_not = λ a b. ground arith;
}
