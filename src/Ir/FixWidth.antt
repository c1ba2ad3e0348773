-- ===== src/Ir/FixWidth.antt =====
-- crave/src/lib/FixWidthVisitor.cpp: rebuilds an expression with extensions, so that the operands of
-- each binary operator have one width.
pub mod Balance
use crave.Prelude.{ℕ, ◌+◌, ◌-◌, ◌≡◌, refl, List, [], ◌∷◌, Bool, true, false, ltb, if◌then◌else◌}
use crave.Prelude.Result.{Result, ok, ◌>>=◌}
use crave.Ir.{
  BinaryOperator, and_opr, or_opr, xor_opr, plus_opr, minus_opr, multiplies_opr, devide_opr,
  modulo_opr, shift_left_opr, shift_right_opr, Node, placeholder, variable_expr, constant,
  vector_expr, unary, inside, extend_expression, binary, vector_access, if_then_else, for_each,
  unique, bitslice,
}
use crave.Ir.Machine.{Visit, pop, eval_unary_expr, eval_bin_expr, eval_tern_expr}

-- a rebuilt node with the width that the visitor records for it
abbrev pub Entry : Type 0
Entry = Node × ℕ

-- `placeholder_bitsize()`: the bits of an `unsigned`
abbrev pub placeholder_bitsize : ℕ
placeholder_bitsize = 32

-- the end of `evalBinExpr`: the narrower operand is extended to the width of the other
unfoldable pub match_widths : Entry → Entry → Entry × Entry
match_widths fst snd =
    if ltb fst.1 snd.1
    then ((extend_expression fst.0 (snd.1 - fst.1), snd.1), snd)
    else if ltb snd.1 fst.1
    then (fst, (extend_expression snd.0 (fst.1 - snd.1), fst.1))
    else (fst, snd)

-- The operators that go through `visitNumberResultBinExpr`; the others go through
-- `visitBooleanResultBinExpr`.
unfoldable pub is_number_result : BinaryOperator → Bool
is_number_result and_opr = true
is_number_result or_opr = true
is_number_result xor_opr = true
is_number_result plus_opr = true
is_number_result minus_opr = true
is_number_result multiplies_opr = true
is_number_result devide_opr = true
is_number_result modulo_opr = true
is_number_result shift_left_opr = true
is_number_result shift_right_opr = true
is_number_result _ = false

-- what either template pushes for its two operands
unfoldable pub fix_binary : BinaryOperator → Entry → Entry → Entry
fix_binary op fst snd =
    let (lhs, rhs) = match_widths fst snd in
    (binary op lhs.0 rhs.0, if is_number_result op then lhs.1 else 1)

-- The visit of each kind of node. `Bitslice` has `l ≤ r`, as `Context` checks where it makes one.
unfoldable pub visit : Node → Visit Entry
visit (placeholder id) s = ok ((placeholder id, placeholder_bitsize) ∷ s)
visit (variable_expr id bs sg) s = ok ((variable_expr id bs sg, bs) ∷ s)
visit (constant c) s = ok ((constant c, c.bitsize) ∷ s)
visit (vector_expr id bs sg) s = ok ((vector_expr id bs sg, bs) ∷ s)
visit (unary op n) s = do (e, t) ← eval_unary_expr (visit n) s; ok ((unary op e.0, e.1) ∷ t)
visit (inside n cs) s = do (e, t) ← eval_unary_expr (visit n) s; ok ((inside e.0 cs, 1) ∷ t)
visit (extend_expression n k) s = do
  (e, t) ← eval_unary_expr (visit n) s
  ok ((extend_expression e.0 k, e.1) ∷ t)
visit (binary op l r) s = do
  (fst, snd, t) ← eval_bin_expr (visit l) (visit r) s
  ok (fix_binary op fst snd ∷ t)
visit (vector_access l r) s = do
  (lhs, rhs, t) ← eval_bin_expr (visit l) (visit r) s
  ok ((vector_access lhs.0 rhs.0, lhs.1) ∷ t)
visit (if_then_else a b c) s = do
  (x, y, z, t) ← eval_tern_expr (visit a) (visit b) (visit c) s
  ok ((if_then_else x.0 y.0 z.0, x.1) ∷ t)
visit (for_each l r) s = do
  (lhs, rhs, t) ← eval_bin_expr (visit l) (visit r) s
  ok ((for_each lhs.0 rhs.0, 1) ∷ t)
visit (unique n) s = do (e, t) ← eval_unary_expr (visit n) s; ok ((unique e.0, e.1) ∷ t)
visit (bitslice n r l) s = do
  (e, t) ← eval_unary_expr (visit n) s
  ok ((bitslice e.0 r l, r - l + 1) ∷ t)

-- `fixWidth(expr)` of a fresh visitor
unfoldable pub fix_width : Node → Result Node
fix_width n = do s ← visit n []; (e, t) ← pop s; ok e.0

-- The same with no stack, as a function on trees.
unfoldable pub fixed : Node → Entry
fixed (placeholder id) = (placeholder id, placeholder_bitsize)
fixed (variable_expr id bs sg) = (variable_expr id bs sg, bs)
fixed (constant c) = (constant c, c.bitsize)
fixed (vector_expr id bs sg) = (vector_expr id bs sg, bs)
fixed (unary op n) = let e = fixed n in (unary op e.0, e.1)
fixed (inside n cs) = (inside (fixed n).0 cs, 1)
fixed (extend_expression n k) = let e = fixed n in (extend_expression e.0 k, e.1)
fixed (binary op l r) = fix_binary op (fixed l) (fixed r)
fixed (vector_access l r) = let e = fixed l in (vector_access e.0 (fixed r).0, e.1)
fixed (if_then_else a b c) = let e = fixed a in (if_then_else e.0 (fixed b).0 (fixed c).0, e.1)
fixed (for_each l r) = (for_each (fixed l).0 (fixed r).0, 1)
fixed (unique n) = let e = fixed n in (unique e.0, e.1)
fixed (bitslice n r l) = (bitslice (fixed n).0 r l, r - l + 1)

pub visit-fixed : (n : Node) (s : List Entry) → visit n s ≡ ok (fixed n ∷ s)
unfolding visit fixed
visit-fixed (placeholder id) s = refl
visit-fixed (variable_expr id bs sg) s = refl
visit-fixed (constant c) s = refl
visit-fixed (vector_expr id bs sg) s = refl
visit-fixed (unary op n) s = rw (visit-fixed n s)
visit-fixed (inside n cs) s = rw (visit-fixed n s)
visit-fixed (extend_expression n k) s = rw (visit-fixed n s)
visit-fixed (binary op l r) s = rw (visit-fixed l s) (rw (visit-fixed r (fixed l ∷ s)))
visit-fixed (vector_access l r) s = rw (visit-fixed l s) (rw (visit-fixed r (fixed l ∷ s)))
visit-fixed (if_then_else a b c) s =
    rw (visit-fixed a s)
      (rw (visit-fixed b (fixed a ∷ s)) (rw (visit-fixed c (fixed b ∷ fixed a ∷ s))))
visit-fixed (for_each l r) s = rw (visit-fixed l s) (rw (visit-fixed r (fixed l ∷ s)))
visit-fixed (unique n) s = rw (visit-fixed n s)
visit-fixed (bitslice n r l) s = rw (visit-fixed n s)

pub fix_width-fixed : (n : Node) → fix_width n ≡ ok (fixed n).0
unfolding fix_width
fix_width-fixed n = rw (visit-fixed n [])
