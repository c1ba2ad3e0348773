-- ===== src/Ir/Replace/Subscript.antt =====
-- crave/src/lib/ReplaceVisitor.cpp: what the visit of each operator makes of the subscripts of its
-- operands, which are the value of the expression at an index if no variable stands in it.
use crave.Prelude.{not, ◌&&◌, ◌||◌}
use crave.Prelude.Result.{Result, ok}
use crave.Prelude.Int.{
  ℤ, of_bool, to_bool, neg_int, complement, add_int, sub_int, mul_int, div_int, mod_int,
  shift_left_int, shift_right_int, ltb_ℤ, eqb_ℤ, and_int, or_int, xor_int,
}
use crave.Ir.{
  UnaryOperator, not_opr, neg_opr, complement_opr, BinaryOperator, and_opr, or_opr, logical_and_opr,
  logical_or_opr, xor_opr, equal_opr, not_equal_opr, less_opr, less_equal_opr, greater_opr,
  greater_equal_opr, plus_opr, minus_opr, multiplies_opr, devide_opr, modulo_opr, shift_left_opr,
  shift_right_opr,
}

unfoldable pub unary_subscript : UnaryOperator → ℤ → Result ℤ
unary_subscript not_opr x = ok (of_bool (not (to_bool x)))
unary_subscript neg_opr x = neg_int x
unary_subscript complement_opr x = ok (complement x)

unfoldable pub binary_subscript : BinaryOperator → ℤ → ℤ → Result ℤ
binary_subscript and_opr x y = ok (and_int x y)
binary_subscript or_opr x y = ok (or_int x y)
binary_subscript logical_and_opr x y = ok (of_bool (to_bool x && to_bool y))
binary_subscript logical_or_opr x y = ok (of_bool (to_bool x || to_bool y))
binary_subscript xor_opr x y = ok (xor_int x y)
binary_subscript equal_opr x y = ok (of_bool (eqb_ℤ x y))
binary_subscript not_equal_opr x y = ok (of_bool (not (eqb_ℤ x y)))
binary_subscript less_opr x y = ok (of_bool (ltb_ℤ x y))
binary_subscript less_equal_opr x y = ok (of_bool (not (ltb_ℤ y x)))
binary_subscript greater_opr x y = ok (of_bool (ltb_ℤ y x))
binary_subscript greater_equal_opr x y = ok (of_bool (not (ltb_ℤ x y)))
binary_subscript plus_opr x y = add_int x y
binary_subscript minus_opr x y = sub_int x y
binary_subscript multiplies_opr x y = mul_int x y
binary_subscript devide_opr x y = div_int x y
binary_subscript modulo_opr x y = mod_int x y
binary_subscript shift_left_opr x y = shift_left_int x y
binary_subscript shift_right_opr x y = shift_right_int x y
