-- ===== src/Ir/Replace/Sure.antt =====
-- When the subscripts of crave/src/lib/ReplaceVisitor.cpp, which are computed by the `int` operators for
-- every part of a constraint, are defined.
use crave.Prelude.{
  ℕ, ◌+◌, ◌^◌, ◌<◌, ◌≤◌, ◌≡◌, refl, List, Bool, true, false, ◌&&◌, Option, ltb, arith,
  if◌then◌else◌,
}
use crave.Prelude.Result.{Result, Returns}
use crave.Prelude.Int.{ℤ, size, of_unsigned, add_small, sub_small, neg_small, of_unsigned_small}
use crave.Ir.{
  UnaryOperator, not_opr, neg_opr, complement_opr, BinaryOperator, and_opr, or_opr, xor_opr,
  plus_opr, minus_opr, multiplies_opr, devide_opr, modulo_opr, shift_left_opr, shift_right_opr,
  Node, placeholder, variable_expr, constant, vector_expr, unary, inside, extend_expression, binary,
  vector_access, if_then_else, for_each, unique, bitslice,
}
use crave.Ir.Replace.Subscript.{unary_subscript, binary_subscript}
use crave.Ir.Replace.Reference.{instantiate}

-- A bound of what an operator makes of subscripts with the given bounds, from their sizes.
unfoldable pub unary_reach : UnaryOperator → ℕ → ℕ
unary_reach not_opr x = 1
unary_reach neg_opr x = x
unary_reach complement_opr x = x + 1

unfoldable pub binary_reach : BinaryOperator → ℕ → ℕ → ℕ
binary_reach and_opr x y = 2 ^ 31
binary_reach or_opr x y = 2 ^ 31
binary_reach xor_opr x y = 2 ^ 31
binary_reach plus_opr x y = x + y
binary_reach minus_opr x y = x + y
binary_reach multiplies_opr x y = 2 ^ 31
binary_reach devide_opr x y = 2 ^ 31
binary_reach modulo_opr x y = 2 ^ 31
binary_reach shift_left_opr x y = 2 ^ 31
binary_reach shift_right_opr x y = 2 ^ 31
binary_reach _ x y = 1

-- A bound of the size of the subscript of an expression at the index `i`.
unfoldable pub reach : ℕ → Node → ℕ
reach i (placeholder id) = i
reach i (variable_expr id bs sg) = 0
reach i (constant c) = if ltb (c.value) (2 ^ 31) then c.value else 2 ^ 31
reach i (vector_expr id bs sg) = 0
reach i (unary op n) = unary_reach op (reach i n)
reach i (inside n cs) = reach i n
reach i (extend_expression n k) = reach i n
reach i (binary op l r) = binary_reach op (reach i l) (reach i r)
reach i (vector_access l r) = 0
reach i (if_then_else a b c) = reach i b + reach i c
reach i (for_each l r) = reach i r
reach i (unique n) = 0
reach i (bitslice n r l) = 1

-- The operator is one of those that are never undefined on an `int`.
unfoldable pub is_total : BinaryOperator → Bool
is_total plus_opr = false
is_total minus_opr = false
is_total multiplies_opr = false
is_total devide_opr = false
is_total modulo_opr = false
is_total shift_left_opr = false
is_total shift_right_opr = false
is_total _ = true

-- Sums and differences stay below 2 ^ 31 by the bounds.
unfoldable pub is_bounded : BinaryOperator → ℕ → Bool
is_bounded plus_opr x = ltb x (2 ^ 31)
is_bounded minus_opr x = ltb x (2 ^ 31)
is_bounded op x = is_total op

-- No `unique` stands in the expression, nor a product, quotient, remainder or shift, and its sums,
-- differences and negations stay below 2 ^ 31 at the index `i`.
unfoldable pub is_sure : ℕ → Node → Bool
is_sure i (unary neg_opr n) = is_sure i n && ltb (reach i n) (2 ^ 31)
is_sure i (unary op n) = is_sure i n
is_sure i (inside n cs) = is_sure i n
is_sure i (extend_expression n k) = is_sure i n
is_sure i (binary op l r) = is_sure i l && (is_sure i r && is_bounded op (reach i l + reach i r))
is_sure i (vector_access l r) = is_sure i r
is_sure i (if_then_else a b c) = is_sure i a && (is_sure i b && is_sure i c)
is_sure i (for_each l r) = is_sure i r
is_sure i (unique n) = false
is_sure i (bitslice n r l) = is_sure i n
is_sure i _ = true

-- The subscript is defined, and no larger than the bound.
unfoldable pub Small : ℕ → Result (Option Node × ℤ) → Type 0
Small k r = Returns r (λ o. size o.1 ≤ k)

size-of_unsigned : (n : ℕ) → size (of_unsigned n) ≤ 2 ^ 31
unfolding of_unsigned
size-of_unsigned n = ground arith

size-constant_value : (n : ℕ) → size (of_unsigned n) ≤ (if ltb n (2 ^ 31) then n else 2 ^ 31)
unfolding of_unsigned
size-constant_value n = ground arith

operand-is_sure :
    (op : UnaryOperator) (n : Node) (i : ℕ) → is_sure i (unary op n) ≡ true → is_sure i n ≡ true
unfolding is_sure
operand-is_sure not_opr n i h = h
operand-is_sure neg_opr n i h = ground arith
operand-is_sure complement_opr n i h = h

binary_small :
    (op : BinaryOperator) (x y : ℤ) (k l : ℕ)
    → size x ≤ k
    → size y ≤ l
    → is_bounded op (k + l) ≡ true
    → Returns (binary_subscript op x y) (λ z. size z ≤ binary_reach op k l)
unfolding binary_subscript binary_reach is_bounded is_total
binary_small plus_opr x y k l p q h =
    let (c, e, s) = add_small x y (ground arith) in (c, e, omega arith)
binary_small minus_opr x y k l p q h =
    let (c, e, s) = sub_small x y (ground arith) in (c, e, omega arith)
binary_small and_opr x y k l p q h = (_, refl, size-of_unsigned _)
binary_small or_opr x y k l p q h = (_, refl, size-of_unsigned _)
binary_small xor_opr x y k l p q h = (_, refl, size-of_unsigned _)
binary_small multiplies_opr x y k l p q h = cc
binary_small devide_opr x y k l p q h = cc
binary_small modulo_opr x y k l p q h = cc
binary_small shift_left_opr x y k l p q h = cc
binary_small shift_right_opr x y k l p q h = cc
binary_small _ x y k l p q h = (_, refl, ground arith)

unary_small :
    (op : UnaryOperator) (n : Node) (x : ℤ) (i : ℕ)
    → size x ≤ reach i n
    → is_sure i (unary op n) ≡ true
    → Returns (unary_subscript op x) (λ y. size y ≤ reach i (unary op n))
unfolding unary_subscript unary_reach reach is_sure
unary_small not_opr n x i p h = (_, refl, ground arith)
unary_small neg_opr n x i p h = let (c, e, s) = neg_small x (ground arith) in (c, e, omega arith)
unary_small complement_opr n x i p h = (_, refl, ground arith)

pub instantiate-Small :
    (ids : List ℕ) (i : ℕ) (n : Node)
    → i < 2 ^ 31
    → is_sure i n ≡ true
    → Small (reach i n) (instantiate ids i n)
unfolding Small instantiate is_sure reach
instantiate-Small ids i (placeholder id) l h = (_, refl, rw (of_unsigned_small i l) (omega arith))
instantiate-Small ids i (variable_expr id bs sg) l h = (_, refl, omega arith)
instantiate-Small ids i (constant c) l h = (_, refl, size-constant_value c.value)
instantiate-Small ids i (vector_expr id bs sg) l h = (_, refl, omega arith)
instantiate-Small ids i (unary op n) l h =
    let ((a, x), e, s) = instantiate-Small ids i n l (operand-is_sure op n i h) in
    let (y, e', s') = unary_small op n x i s h in rw e (rw e' (_, refl, s'))
instantiate-Small ids i (inside n cs) l h =
    let ((a, x), e, s) = instantiate-Small ids i n l h in rw e (_, refl, s)
instantiate-Small ids i (extend_expression n k) l h =
    let ((a, x), e, s) = instantiate-Small ids i n l h in rw e (_, refl, s)
instantiate-Small ids i (binary op a b) l h =
    let ((p, x), e, s) = instantiate-Small ids i a l (ground arith) in
    let ((q, y), e', s') = instantiate-Small ids i b l (ground arith) in
    let (z, f, t) = binary_small op x y (reach i a) (reach i b) s s' (ground arith) in
    rw e (rw e' (rw f (_, refl, t)))
instantiate-Small ids i (vector_access a b) l h =
    let ((q, y), e', s') = instantiate-Small ids i b l h in rw e' (_, refl, omega arith)
instantiate-Small ids i (if_then_else a b c) l h =
    let ((p, x), e, s) = instantiate-Small ids i a l (ground arith) in
    let ((q, y), e', s') = instantiate-Small ids i b l (ground arith) in
    let ((r, z), e2, s2) = instantiate-Small ids i c l (ground arith) in
    rw e (rw e' (rw e2 (_, refl, ground arith)))
instantiate-Small ids i (for_each a b) l h = instantiate-Small ids i b l h
instantiate-Small ids i (unique n) l h = cc
instantiate-Small ids i (bitslice n r k) l h =
    let ((a, x), e, s) = instantiate-Small ids i n l h in rw e (_, refl, ground arith)
