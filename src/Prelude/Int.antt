-- ===== src/Prelude/Int.antt =====
-- The 32-bit `int` of C++11 and its operators, as the subscripts of crave/src/lib/ReplaceVisitor.cpp use
-- them. A result that the type does not hold is undefined; the conversion to `int` and the shift of
-- a negative number to the right, which the language leaves to the compiler, are those of two's
-- complement.
use Prim.Native.Nat.{bit_and, bit_or, bit_xor}
use crave.Prelude.{
  ℕ, suc, ◌+◌, ◌-◌, ◌*◌, ◌/◌, ◌%◌, ◌^◌, ◌≤◌, ◌<◌, ◌≡◌, Bool, true, false, not, ◌==◌, ltb, leb, ◌||◌,
  arith, if◌then◌else◌,
}
use crave.Prelude.Result.{Result, ok, err, undefined}

-- `negsuc n` is -(n + 1).
pub data ℤ : Type 0 where
  pos : ℕ → ℤ
  negsuc : ℕ → ℤ

abbrev pub pos_part : ℤ → ℕ
pos_part (pos n) = n
pos_part (negsuc n) = 0

abbrev pub neg_part : ℤ → ℕ
neg_part (pos n) = 0
neg_part (negsuc n) = suc n

-- a - b, as an integer.
abbrev pub sub_ℕ : ℕ → ℕ → ℤ
sub_ℕ a b = if leb b a then pos (a - b) else negsuc (b - a - 1)

abbrev pub is_negative_int : ℤ → Bool
is_negative_int a = elim a [ pos n ↦ false | negsuc n ↦ true ]

-- The conversion from `bool` and to it.
abbrev pub of_bool : Bool → ℤ
of_bool b = elim b [ true ↦ pos 1 | false ↦ pos 0 ]

abbrev pub to_bool : ℤ → Bool
to_bool a = elim a [ pos n ↦ not (n == 0) | negsuc n ↦ true ]

-- The conversion of an unsigned number, which keeps the low 32 bits.
unfoldable pub of_unsigned : ℕ → ℤ
of_unsigned n =
    let low = n % 2 ^ 32 in if ltb low (2 ^ 31) then pos low else negsuc (2 ^ 32 - 1 - low)

-- The low 32 bits of an `int`.
abbrev pub bits : ℤ → ℕ
bits a = elim a [ pos n ↦ n | negsuc n ↦ 2 ^ 32 - 1 - n ]

-- The values of the type.
abbrev pub is_int : ℤ → Bool
is_int a = elim a [ pos n ↦ ltb n (2 ^ 31) | negsuc n ↦ ltb n (2 ^ 31) ]

-- A result that has to be a value of the type.
abbrev pub checked_int : ℤ → Result ℤ
checked_int a = elim (is_int a) [ true ↦ ok a | false ↦ err undefined ]

unfoldable pub neg_int : ℤ → Result ℤ
neg_int a = checked_int (sub_ℕ (neg_part a) (pos_part a))

abbrev pub complement : ℤ → ℤ
complement a = elim a [ pos n ↦ negsuc n | negsuc n ↦ pos n ]

unfoldable pub add_int : ℤ → ℤ → Result ℤ
add_int a b = checked_int (sub_ℕ (pos_part a + pos_part b) (neg_part a + neg_part b))

unfoldable pub sub_int : ℤ → ℤ → Result ℤ
sub_int a b = checked_int (sub_ℕ (pos_part a + neg_part b) (neg_part a + pos_part b))

-- The integer of a size and a sign.
abbrev pub with_sign_int : Bool → ℕ → ℤ
with_sign_int negative n = if negative then sub_ℕ 0 n else pos n

abbrev pub size : ℤ → ℕ
size a = pos_part a + neg_part a

-- One of the two is negative, and the other is not.
abbrev pub differ : ℤ → ℤ → Bool
differ a b = if is_negative_int a then not (is_negative_int b) else is_negative_int b

unfoldable pub mul_int : ℤ → ℤ → Result ℤ
mul_int a b = checked_int (with_sign_int (differ a b) (size a * size b))

-- Division goes towards zero, and the remainder has the sign of the dividend.
unfoldable pub div_int : ℤ → ℤ → Result ℤ
div_int a b =
    if size b == 0
    then err undefined
    else checked_int (with_sign_int (differ a b) (size a / size b))

-- The remainder is undefined where the quotient is.
unfoldable pub mod_int : ℤ → ℤ → Result ℤ
unfolding div_int
mod_int a b = elim (div_int a b) [
  | err fault ↦ err fault
  | ok quotient ↦ ok (with_sign_int (is_negative_int a) (size a % size b))
]

-- A shift by a number that is negative or is not below the width is undefined, and so is one to the
-- left of a negative number, or out of the 32 bits.
unfoldable pub shift_left_int : ℤ → ℤ → Result ℤ
shift_left_int a b =
    if is_negative_int a || (is_negative_int b || leb 32 (size b))
    then err undefined
    else if ltb (size a * 2 ^ size b) (2 ^ 32)
    then ok (of_unsigned (size a * 2 ^ size b))
    else err undefined

unfoldable pub shift_right_int : ℤ → ℤ → Result ℤ
shift_right_int a b =
    if is_negative_int b || leb 32 (size b)
    then err undefined
    else ok (elim a [ pos n ↦ pos (n / 2 ^ size b) | negsuc n ↦ negsuc (n / 2 ^ size b) ])

abbrev pub ltb_ℤ : ℤ → ℤ → Bool
ltb_ℤ a b = ltb (pos_part a + neg_part b) (pos_part b + neg_part a)

abbrev pub eqb_ℤ : ℤ → ℤ → Bool
eqb_ℤ a b = pos_part a + neg_part b == pos_part b + neg_part a

abbrev pub and_int : ℤ → ℤ → ℤ
and_int a b = of_unsigned (bit_and (bits a) (bits b))

abbrev pub or_int : ℤ → ℤ → ℤ
or_int a b = of_unsigned (bit_or (bits a) (bits b))

abbrev pub xor_int : ℤ → ℤ → ℤ
xor_int a b = of_unsigned (bit_xor (bits a) (bits b))

-- An operation of which the sizes add up to less than the type holds is defined.
pub add_small :
    (a b : ℤ)
    → size a + size b < 2 ^ 31
    → (c : ℤ) × (add_int a b ≡ ok c) × (size c ≤ size a + size b)
unfolding add_int
add_small a b h =
    (sub_ℕ (pos_part a + pos_part b) (neg_part a + neg_part b), ground arith, ground arith)

pub sub_small :
    (a b : ℤ)
    → size a + size b < 2 ^ 31
    → (c : ℤ) × (sub_int a b ≡ ok c) × (size c ≤ size a + size b)
unfolding sub_int
sub_small a b h =
    (sub_ℕ (pos_part a + neg_part b) (neg_part a + pos_part b), ground arith, ground arith)

pub neg_small : (a : ℤ) → size a < 2 ^ 31 → (c : ℤ) × (neg_int a ≡ ok c) × (size c ≤ size a)
unfolding neg_int
neg_small a h = (sub_ℕ (neg_part a) (pos_part a), ground arith, ground arith)

pub of_unsigned_small : (n : ℕ) → n < 2 ^ 31 → of_unsigned n ≡ pos n
unfolding of_unsigned
of_unsigned_small n h = ground arith
