-- ===== src/Common/Sums.antt =====
-- Sums of the numbers that the program computes with, added in their order.
use mathlib.Core.List.{List, [], ◌∷◌, ◌++◌}
use mathlib.Core.Path.{◌≡◌, refl}
use leverage_agnet.Common.Number.{Number}

abbrev pub sum_from : {A : Type 0} → Number A → A → List A → A
sum_from F acc [] = acc
sum_from F acc (x ∷ xs) = sum_from F (F.add acc x) xs

pub sum_from-append :
    {A : Type 0} (F : Number A) (xs ys : List A) (acc : A)
    → sum_from F acc (xs ++ ys) ≡ sum_from F (sum_from F acc xs) ys
sum_from-append F [] ys acc = refl
sum_from-append F (x ∷ xs) ys acc = sum_from-append F xs ys (F.add acc x)
