-- ===== src/Solver.antt =====
-- crave/src/lib/metaSMTNodeVisitorImpl.hpp: the translation of expressions into terms of a solver of
-- metaSMT, and the calls that pose and solve a problem.
pub mod MetaSmt
pub mod Problem
pub mod Softs
pub mod Answer
pub mod Translation
pub mod Asserted
use crave.Prelude.{
  ℕ, List, [], ◌∷◌, ◌++◌, Bool, true, false, not, ◌&&◌, ◌||◌, Option, none, some, ◌==◌,
  if◌then◌else◌,
}
use crave.Prelude.Result.{Result, ok, err, runtime_error, ◌>>=◌}
use crave.Ir.{
  Constant, UnaryOperator, not_opr, neg_opr, complement_opr, BinaryOperator, and_opr, or_opr,
  logical_and_opr, logical_or_opr, xor_opr, equal_opr, not_equal_opr, less_opr, less_equal_opr,
  greater_opr, greater_equal_opr, plus_opr, minus_opr, multiplies_opr, devide_opr, modulo_opr,
  shift_left_opr, shift_right_opr, Node, placeholder, variable_expr, constant, vector_expr, unary,
  inside, extend_expression, binary, vector_access, if_then_else, for_each, unique, bitslice,
}
use crave.Ir.Machine.{pop, pop2, pop3}
use crave.Solver.MetaSmt.{
  Term, result, true_term, false_term, new_variable, new_bitvector, bvsint, bvuint, not_term, bvneg,
  bvnot, and_term, or_term, equal, nequal, bvand, bvor, bvxor, bvadd, bvsub, bvmul, bvshl, bvshr,
  bvslt, bvult, bvsle, bvule, bvsgt, bvugt, bvsge, bvuge, bvsdiv, bvudiv, bvsrem, bvurem,
  sign_extend, zero_extend, extract, ite, Backend,
}

-- `Terminal::isBool()`
abbrev pub is_bool : ℕ → Bool → Bool
is_bool bitsize sign = bitsize == 1 && sign

-- the term of a constant
unfoldable pub constant_term : {E : Type 0} → Constant → Term E
constant_term c =
    if is_bool c.bitsize c.sign
    then (if c.value == 0 then false_term else true_term)
    else (if c.sign then bvsint c.value c.bitsize else bvuint c.value c.bitsize)

-- the term of a variable that has none yet
unfoldable pub fresh_term : {E : Type 0} → ℕ → Bool → Term E
fresh_term bitsize sign = if is_bool bitsize sign then new_variable else new_bitvector bitsize

unfoldable pub unary_term : {E : Type 0} → UnaryOperator → E → Term E
unary_term not_opr e = not_term (result e)
unary_term neg_opr e = bvneg (result e)
unary_term complement_opr e = bvnot (result e)

-- The choice by the signs of the operands: a signed and an unsigned operand are both extended by a
-- bit, then taken as signed.
unfoldable pub by_sign :
    {E : Type 0}
    → (Term E → Term E → Term E)
    → (Term E → Term E → Term E)
    → E × Bool
    → E × Bool
    → Term E
by_sign signed unsigned (lhs, lhs_signed) (rhs, rhs_signed) =
    if lhs_signed && rhs_signed
    then signed (result lhs) (result rhs)
    else if not (lhs_signed || rhs_signed)
    then unsigned (result lhs) (result rhs)
    else if lhs_signed
    then signed (sign_extend 1 (result lhs)) (zero_extend 1 (result rhs))
    else signed (zero_extend 1 (result lhs)) (sign_extend 1 (result rhs))

-- the term of each binary operator
unfoldable pub binary_term : {E : Type 0} → BinaryOperator → E × Bool → E × Bool → Term E
unfolding by_sign
binary_term and_opr a b = bvand (result a.0) (result b.0)
binary_term or_opr a b = bvor (result a.0) (result b.0)
binary_term logical_and_opr a b = and_term (result a.0) (result b.0)
binary_term logical_or_opr a b = or_term (result a.0) (result b.0)
binary_term xor_opr a b = bvxor (result a.0) (result b.0)
binary_term equal_opr a b = equal (result a.0) (result b.0)
binary_term not_equal_opr a b = nequal (result a.0) (result b.0)
binary_term less_opr a b = by_sign bvslt bvult a b
binary_term less_equal_opr a b = by_sign bvsle bvule a b
binary_term greater_opr a b = by_sign bvsgt bvugt a b
binary_term greater_equal_opr a b = by_sign bvsge bvuge a b
binary_term plus_opr a b = bvadd (result a.0) (result b.0)
binary_term minus_opr a b = bvsub (result a.0) (result b.0)
binary_term multiplies_opr a b = bvmul (result a.0) (result b.0)
binary_term devide_opr a b = by_sign bvsdiv bvudiv a b
binary_term modulo_opr a b =
    if a.1 then bvsrem (result a.0) (result b.0) else bvurem (result a.0) (result b.0)
binary_term shift_left_opr a b = bvshl (result a.0) (result b.0)
binary_term shift_right_opr a b = bvshr (result a.0) (result b.0)

-- and the sign that goes with it
unfoldable pub binary_sign : BinaryOperator → Bool → Bool → Bool
binary_sign equal_opr a b = false
binary_sign not_equal_opr a b = false
binary_sign less_opr a b = false
binary_sign less_equal_opr a b = false
binary_sign greater_opr a b = false
binary_sign greater_equal_opr a b = false
binary_sign shift_left_opr a b = a
binary_sign shift_right_opr a b = a
binary_sign _ a b = a || b

-- `solver_` and `terminals_`
pub record Scope (B : Backend) : Type 0 where
  pub context : B.Context
  pub terminals : ℕ → Option (B.Expr)

-- what the visits change: those two and `exprStack_`
pub record Store (B : Backend) : Type 0 where
  pub scope : Scope B
  pub stack : List (B.Expr × Bool)

module _ (B : Backend) where
  abbrev pub Visit : Type 0
  Visit = Store B → Result (Store B)

  -- `evaluate(solver_, t)`
  unfoldable pub evaluated : Term (B.Expr) → Scope B → B.Expr × Scope B
  evaluated t g = let (e, c) = B.evaluate t g.context in (e, record g { context = c })

  -- the push of what `evaluate(solver_, t)` gives, with a sign
  unfoldable pub push_term : Term (B.Expr) → Bool → Store B → Store B
  push_term t sign st =
      let (e, g) = evaluated t st.scope in record { scope = g; stack = (e, sign) ∷ st.stack }

  -- `visitVariableExpr`: the result that the id has, or a new one
  unfoldable pub visit_variable : ℕ → ℕ → Bool → Store B → Store B
  visit_variable id bitsize sign st = elim (st.scope.terminals id) [
    | some e ↦ record st { stack = (e, sign) ∷ st.stack }
    | none ↦
        let (e, g) = evaluated (fresh_term bitsize sign) st.scope in
        record {
          scope = record g { terminals = λ v. if id == v then some e else g.terminals v };
          stack = (e, sign) ∷ st.stack;
        }
  ]

  -- the loop of `visitInside`; a constant's push is popped at once
  unfoldable pub any_equal : B.Expr → List Constant → B.Expr → Scope B → B.Expr × Scope B
  any_equal entry [] so_far g = (so_far, g)
  any_equal entry (c ∷ cs) so_far g =
      let (k, g1) = evaluated (constant_term c) g in
      let (e, g2) = evaluated (or_term (result so_far) (equal (result entry) (result k))) g1 in
      any_equal entry cs e g2

  abbrev pub eval_unary : Visit → Store B → Result ((B.Expr × Bool) × Store B)
  eval_unary v st = do t ← v st; (e, s) ← pop t.stack; ok (e, record t { stack = s })

  -- `evalBinExpr`
  abbrev pub eval_bin :
      Visit → Visit → Store B → Result ((B.Expr × Bool) × (B.Expr × Bool) × Store B)
  eval_bin l r st = do
    t ← l st
    u ← r t
    (snd, fst, s) ← pop2 u.stack
    ok (fst, snd, record u { stack = s })

  -- `evalTernExpr`
  abbrev pub eval_tern :
      Visit
      → Visit
      → Visit
      → Store B
      → Result ((B.Expr × Bool) × (B.Expr × Bool) × (B.Expr × Bool) × Store B)
  eval_tern a b c st = do
    t ← a st
    u ← b t
    w ← c u
    (trd, snd, fst, s) ← pop3 w.stack
    ok (fst, snd, trd, record w { stack = s })

  -- the end of `visitInside`
  unfoldable pub finish_inside : List Constant → (B.Expr × Bool) → Store B → Store B
  finish_inside cs entry st =
      let (none_of, g) = evaluated false_term st.scope in
      let (e, g1) = any_equal entry.0 cs none_of g in
      record { scope = g1; stack = (e, false) ∷ st.stack }

  -- the end of `visitExtendExpr`
  abbrev pub extend_term : ℕ → (B.Expr × Bool) → Term (B.Expr)
  extend_term k entry =
      if entry.1 then sign_extend k (result entry.0) else zero_extend k (result entry.0)

  -- the term of `visitIfThenElse`
  abbrev pub choice_term : B.Expr × Bool → B.Expr × Bool → B.Expr × Bool → Term (B.Expr)
  choice_term x y z = ite (equal (result x.0) true_term) (result y.0) (result z.0)

  -- the term of `visitBitslice`
  abbrev pub slice_term : ℕ → ℕ → B.Expr × Bool → Term (B.Expr)
  slice_term r l e = extract r l (result e.0)

  -- the visit of each kind of node
  unfoldable pub visit : Node → Visit
  visit (placeholder id) st = ok st
  visit (variable_expr id bs sg) st = ok (visit_variable id bs sg st)
  visit (constant c) st = ok (push_term (constant_term c) c.sign st)
  visit (vector_expr id bs sg) st =
      err (runtime_error "VectorExpr is not allowed in metaSMTNodeVisitor.")
  visit (unary op n) st = do
    (e, t) ← eval_unary (visit n) st
    ok (push_term (unary_term op e.0) e.1 t)
  visit (inside n cs) st = do (e, t) ← eval_unary (visit n) st; ok (finish_inside cs e t)
  visit (extend_expression n k) st = do
    (e, t) ← eval_unary (visit n) st
    ok (push_term (extend_term k e) e.1 t)
  visit (binary op l r) st = do
    (a, b, t) ← eval_bin (visit l) (visit r) st
    ok (push_term (binary_term op a b) (binary_sign op a.1 b.1) t)
  visit (vector_access l r) st =
      err (runtime_error "VectorAccess is not allowed in metaSMTNodeVisitor.")
  visit (if_then_else a b c) st = do
    (x, y, z, t) ← eval_tern (visit a) (visit b) (visit c) st
    ok (push_term (choice_term x y z) false t)
  visit (for_each l r) st = err (runtime_error "ForEach is not allowed in metaSMTNodeVisitor.")
  visit (unique n) st = err (runtime_error "Unique is not allowed in metaSMTNodeVisitor.")
  visit (bitslice n r l) st = do
    (e, t) ← eval_unary (visit n) st
    ok (push_term (slice_term r l e) false t)
