-- ===== src/Ir/Eval/Value.antt =====
-- The arithmetic of crave/src/lib/EvalVisitor.cpp on values of 64 bits. An entry of the visitor's stack
-- is a value with a flag, which says whether the value is known.
use Prim.Native.Nat.{bit_and, bit_or, bit_xor}
use crave.Prelude.{
  ℕ, zero, suc, ◌+◌, ◌-◌, ◌*◌, ◌/◌, ◌%◌, ◌^◌, List, [], ◌∷◌, Bool, true, false, not, ◌&&◌, ◌||◌,
  ltb, leb, ◌==◌, if◌then◌else◌,
}
use mathlib.Core.Bool.{xor}
use crave.Prelude.Result.{Result, ok, err, undefined, ◌>>=◌}
use crave.Prelude.Word.{wrap}
use crave.Ir.{
  Constant, default_constant, bool_constant, UnaryOperator, not_opr, neg_opr, complement_opr,
  BinaryOperator, and_opr, or_opr, logical_and_opr, logical_or_opr, xor_opr, equal_opr,
  not_equal_opr, less_opr, less_equal_opr, greater_opr, greater_equal_opr, plus_opr, minus_opr,
  multiplies_opr, devide_opr, modulo_opr, shift_left_opr, shift_right_opr,
}

-- `stack_entry`
abbrev pub Entry : Type 0
Entry = Constant × Bool

-- a value where a condition is asked for
abbrev pub truth : Constant → Bool
truth c = not (c.value == 0)

abbrev pub sized : ℕ → ℕ → Bool → Constant
sized v bs s = record { value = v; bitsize = bs; sign = s }

-- `visitNotOpr`, `visitNegOpr` and `visitComplementOpr`, of the child's value
unfoldable pub unary_value : UnaryOperator → Constant → Constant
unary_value not_opr c = bool_constant (not (truth c))
unary_value neg_opr c = sized (wrap (2 ^ 64 - c.value)) c.bitsize c.sign
unary_value complement_opr c = sized (2 ^ 64 - 1 - c.value) c.bitsize c.sign

-- the loop of `visitInside`
unfoldable pub is_member : ℕ → List Constant → Bool
is_member v [] = false
is_member v (c ∷ cs) = c.value == v || is_member v cs

-- a number with the left operand's width, signed if either operand is
abbrev like : Constant → Constant → ℕ → Constant
like l r v = sized v l.bitsize (l.sign || r.sign)

-- The operators that always have a value. Comparisons are on `uint64_t`.
unfoldable pub plain_value : BinaryOperator → Constant → Constant → Constant
plain_value and_opr l r = like l r (bit_and l.value r.value)
plain_value or_opr l r = like l r (bit_or l.value r.value)
plain_value logical_and_opr l r = bool_constant (truth l && truth r)
plain_value logical_or_opr l r = bool_constant (truth l || truth r)
plain_value xor_opr l r = like l r (bit_xor l.value r.value)
plain_value equal_opr l r = bool_constant (l.value == r.value)
plain_value not_equal_opr l r = bool_constant (not (l.value == r.value))
plain_value less_opr l r = bool_constant (ltb l.value r.value)
plain_value less_equal_opr l r = bool_constant (leb l.value r.value)
plain_value greater_opr l r = bool_constant (ltb r.value l.value)
plain_value greater_equal_opr l r = bool_constant (leb r.value l.value)
plain_value plus_opr l r = like l r (wrap (l.value + r.value))
plain_value minus_opr l r = like l r (wrap (l.value + 2 ^ 64 - r.value))
plain_value multiplies_opr l r = like l r (wrap (l.value * r.value))
plain_value _ l r = default_constant

-- `static_cast<long long>`: whether it is negative, and how far from 0
abbrev pub is_negative : ℕ → Bool
is_negative v = leb (2 ^ 63) v

abbrev magnitude : ℕ → ℕ
magnitude v = if is_negative v then 2 ^ 64 - v else v

-- a magnitude with a sign, as `uint64_t`
abbrev with_sign : Bool → ℕ → ℕ
with_sign negative m = if negative then wrap (2 ^ 64 - m) else m

-- the least number over -1, which overflows
abbrev overflows : ℕ → ℕ → Bool
overflows l r = l == 2 ^ 63 && r == 2 ^ 64 - 1

-- `/` of two `long long`, the divisor not 0: the quotient is cut off towards 0
unfoldable pub signed_quotient : ℕ → ℕ → Result ℕ
signed_quotient l r =
    if overflows l r
    then err undefined
    else ok (with_sign (xor (is_negative l) (is_negative r)) (magnitude l / magnitude r))

-- `%` of two `long long`: the remainder has the sign of the dividend
unfoldable pub signed_remainder : ℕ → ℕ → Result ℕ
signed_remainder l r =
    if overflows l r
    then err undefined
    else ok (with_sign (is_negative l) (magnitude l % magnitude r))

-- `visitDevideOpr`
unfoldable pub devide : Entry → Entry → Result Entry
devide l r =
    if r.0.value == 0
    then ok (default_constant, false)
    else if l.0.sign || r.0.sign
    then (do q ← signed_quotient l.0.value r.0.value; ok (sized q l.0.bitsize true, l.1 && r.1))
    else ok (sized (l.0.value / r.0.value) l.0.bitsize false, l.1 && r.1)

-- `visitModuloOpr`
unfoldable pub modulo : Entry → Entry → Result Entry
modulo l r =
    if r.0.value == 0
    then ok (default_constant, false)
    else if l.0.sign || r.0.sign
    then (do q ← signed_remainder l.0.value r.0.value; ok (sized q l.0.bitsize true, l.1 && r.1))
    else ok (sized (l.0.value % r.0.value) l.0.bitsize false, l.1 && r.1)

-- `visitShiftLeftOpr` and `visitShiftRightOpr`: undefined from 64 places on
unfoldable pub shift_left : Entry → Entry → Result Entry
shift_left l r =
    if leb 64 r.0.value
    then err undefined
    else ok (like l.0 r.0 (wrap (l.0.value * 2 ^ r.0.value)), l.1 && r.1)

unfoldable pub shift_right : Entry → Entry → Result Entry
shift_right l r =
    if leb 64 r.0.value
    then err undefined
    else ok (like l.0 r.0 (l.0.value / 2 ^ r.0.value), l.1 && r.1)

-- what the visit of each operator pushes
unfoldable pub binary_entry : BinaryOperator → Entry → Entry → Result Entry
binary_entry devide_opr l r = devide l r
binary_entry modulo_opr l r = modulo l r
binary_entry shift_left_opr l r = shift_left l r
binary_entry shift_right_opr l r = shift_right l r
binary_entry op l r = ok (plain_value op l.0 r.0, l.1 && r.1)

-- the loop of `visitBitslice`, `n` bits from `i` on
unfoldable pub mask : ℕ → ℕ → ℕ
mask zero i = 0
mask (suc n) i = bit_or (2 ^ i) (mask n (suc i))

-- `visitBitslice`, with `l ≤ r`, as `Context` checks where it makes one: `1LL << i` is undefined from
-- 64 on, and the flag is always false
unfoldable pub slice : ℕ → ℕ → Constant → Result Entry
slice r l c =
    if leb 64 r
    then err undefined
    else ok (sized (bit_and (mask (r - l + 1) l) c.value / 2 ^ l) (r - l + 1) false, false)
