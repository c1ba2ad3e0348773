-- ===== src/Tests/Objects.antt =====
-- The theorems on the names of objects, where a number is written by as many strokes and one.
use Prim.Native.String.{String, len, ◌++◌ as append}
use text.Mathlib.TextPositions.{len-append}
use mathlib.Core.List.{Memᴰ}
use crave.Prelude.{ℕ, zero, suc, ◌≡◌, refl, ap, ◌∙◌, [], ◌∷◌, arith, Pairs}
use crave.Object.{new_parent}
use crave.Object.Names.{
  make_again, make_again-clash, IsNumeral, make_all, HasOtherName, make_all-HasOtherName,
}

abbrev strokes : ℕ → String
strokes zero = "|"
strokes (suc n) = append "|" (strokes n)

len-strokes : (n : ℕ) → len (strokes n) ≡ suc n
len-strokes zero = refl
len-strokes (suc n) = len-append "|" (strokes n) ∙ omega (arith, len-strokes n)

strokes-IsNumeral : IsNumeral strokes
strokes-IsNumeral = (
  (λ m n e. omega (arith, len-strokes m, len-strokes n, ap len e)),
  (λ m. omega (arith, len-strokes m)),
)

make_again-clash_example :
    ((make_again strokes 1 2 3 "x" new_parent).1.name
      ≡ (make_again strokes 1 2 3 "x" new_parent).0.name)
    × Memᴰ
        (make_again strokes 1 2 3 "x" new_parent).0
        (make_again strokes 1 2 3 "x" new_parent).2.children
    × Memᴰ
        (make_again strokes 1 2 3 "x" new_parent).1
        (make_again strokes 1 2 3 "x" new_parent).2.children
make_again-clash_example = make_again-clash strokes 1 2 3 "x" new_parent refl refl

make_all-HasOtherName_example :
    Pairs (HasOtherName strokes) (make_all strokes (1 ∷ 2 ∷ 3 ∷ []) "x" new_parent).0
make_all-HasOtherName_example =
    make_all-HasOtherName strokes (1 ∷ 2 ∷ 3 ∷ []) "x" new_parent strokes-IsNumeral refl
      (omega arith)
