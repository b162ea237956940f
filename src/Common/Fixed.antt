-- ===== src/Common/Fixed.antt =====
-- Fixed-point numbers with three decimal places, an instance of the numbers that the program
-- computes with. The roundings cut towards zero.
use Prim.Native.Nat.{◌*◌, ◌/◌, ◌^◌}
use leverage_agnet.Common.{ℕ}
use leverage_agnet.Common.Integer.{ℤ, pos, ◌+ℤ◌, ◌-ℤ◌, ◌*ℤ◌, div_ℤ, ltb_ℤ, leb_ℤ, whole-IsOrdered}
use leverage_agnet.Common.Number.{Number, IsOrdered}
use leverage_agnet.Common.Tests.{ltb, if◌then◌else◌}

-- how many thousandths there are between two numbers with k decimal places
abbrev step : ℕ → ℕ
step k = if ltb 3 k then 1 else 1000 / 10 ^ k

abbrev cut : ℕ → ℤ → ℤ
cut k x = div_ℤ x (pos (step k)) *ℤ pos (step k)

-- `pos n` is n thousandths
abbrev pub thousandths : Number ℤ
thousandths = record {
  decimal = λ m k. pos (m * 1000 / 10 ^ k);
  add = ◌+ℤ◌;
  sub = ◌-ℤ◌;
  mul = λ a b. div_ℤ (a *ℤ b) (pos 1000);
  div = λ a b. div_ℤ (a *ℤ pos 1000) b;
  ltb = ltb_ℤ;
  leb = leb_ℤ;
  quantize = cut;
  quantize_down = cut;
}

pub thousandths-IsOrdered : IsOrdered thousandths
thousandths-IsOrdered = record {
  leb_refl = whole-IsOrdered.leb_refl;
  leb_trans = whole-IsOrdered.leb_trans;
  leb_total = whole-IsOrdered.leb_total;
  ltb_not = whole-IsOrdered.ltb_not;
}
