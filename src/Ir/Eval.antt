-- ===== src/Ir/Eval.antt =====
-- crave/src/lib/EvalVisitor.cpp and crave/src/crave/utils/Evaluator.hpp: the value of an expression under
-- an assignment of its variables.
pub mod Value
pub mod Direct
pub mod Meaning
pub mod Flags
use crave.Prelude.{
  ℕ, List, [], ◌∷◌, Bool, true, false, not, ◌&&◌, Option, none, some, ◌==◌, ◌+◌, ◌%◌, ◌^◌,
  if◌then◌else◌,
}
use crave.Prelude.Result.{Result, ok, err, runtime_error, ◌>>=◌}
use crave.Ir.{
  Constant, default_constant, bool_constant, BinaryOperator, equal_opr, Node, placeholder,
  variable_expr, constant, vector_expr, unary, inside, extend_expression, binary, vector_access,
  if_then_else, for_each, unique, bitslice,
}
use crave.Ir.Machine.{pop, pop2, pop3}
use crave.Ir.Eval.Value.{Entry, truth, sized, unary_value, is_member, binary_entry, slice}

-- `eval_map`
abbrev pub EvalMap : Type 0
EvalMap = ℕ → Option Constant

-- the fields `evalMap_`, as what it points at, and `exprStack_`
pub record Store : Type 0 where
  pub map : EvalMap
  pub stack : List Entry

abbrev pub Visit : Type 0
Visit = Store → Result Store

abbrev pub push : Entry → Store → Store
push e st = record st { stack = e ∷ st.stack }

-- the same for a variable and a vector: its value if there is one, else an unknown
abbrev pub lookup : EvalMap → ℕ → Entry
lookup m v = elim (m v) [ none ↦ (default_constant, false) | some c ↦ (c, true) ]

-- `insert` of a key that is not there, and `assignments_[id] = c`
unfoldable pub update : EvalMap → ℕ → Constant → EvalMap
update m v c = λ w. if v == w then some c else m w

-- the first part of `visitEqualOpr`, on the two ids that it reads
unfoldable pub propagate : ℕ → ℕ → EvalMap → EvalMap
propagate v1 v2 m =
    if not (v1 == 0) && not (v2 == 0)
    then elim (m v1) [
      | none ↦ elim (m v2) [ none ↦ m | some c ↦ update m v1 c ]
      | some c ↦ elim (m v2) [ none ↦ update m v2 c | some d ↦ m ]
    ]
    else m

-- `visitUnaryExpr` and `pop`
abbrev pub eval_unary : Visit → Store → Result (Entry × Store)
eval_unary v st = do t ← v st; (e, s) ← pop t.stack; ok (e, record t { stack = s })

abbrev pub eval_bin : Visit → Visit → Store → Result (Entry × Entry × Store)
eval_bin l r st = do
  t ← l st
  u ← r t
  (snd, fst, s) ← pop2 u.stack
  ok (fst, snd, record u { stack = s })

abbrev pub eval_tern : Visit → Visit → Visit → Store → Result (Entry × Entry × Entry × Store)
eval_tern a b c st = do
  t ← a st
  u ← b t
  w ← c u
  (trd, snd, fst, s) ← pop3 w.stack
  ok (fst, snd, trd, record w { stack = s })

-- `Evaluator`, with its visitor's stack and result
pub record Evaluator : Type 0 where
  pub store : Store
  pub result : Constant

-- `Evaluator()`
abbrev pub new_evaluator : Evaluator
new_evaluator = record { store = record { map = λ v. none; stack = [] }; result = default_constant }

-- `assign(id, c)`
unfoldable pub assign : ℕ → Constant → Evaluator → Evaluator
assign id c ev = record ev { store = record (ev.store) { map = update ev.store.map id c } }

-- `visitEqualOpr` casts both operands to `VariableExpr`, whatever they are, and reads their ids. What
-- that read gives of another node is not defined by the language: it is the parameter `raw_id`.
module _ (raw_id : Node → ℕ) where
  -- what a binary operator's visit does before it visits the operands
  unfoldable pub before : BinaryOperator → Node → Node → EvalMap → EvalMap
  before equal_opr l r m = propagate (raw_id l) (raw_id r) m
  before _ l r m = m

  -- The visit of each kind of node; that of a placeholder does nothing.
  unfoldable pub visit : Node → Visit
  visit (placeholder id) st = ok st
  visit (variable_expr id bs sg) st = ok (push (lookup st.map id) st)
  visit (constant c) st = ok (push (c, true) st)
  visit (vector_expr id bs sg) st = ok (push (lookup st.map id) st)
  visit (unary op n) st = do (e, t) ← eval_unary (visit n) st; ok (push (unary_value op e.0, e.1) t)
  visit (inside n cs) st = do
    (e, t) ← eval_unary (visit n) st
    ok (push (bool_constant (is_member e.0.value cs), e.1) t)
  visit (extend_expression n k) st = do
    (e, t) ← eval_unary (visit n) st
    ok (push (sized e.0.value ((e.0.bitsize + k) % 2 ^ 32) e.0.sign, e.1) t)
  visit (binary op l r) st = do
    (a, b, t) ← eval_bin (visit l) (visit r) (record st { map = before op l r st.map })
    e ← binary_entry op a b
    ok (push e t)
  visit (vector_access l r) st = err (runtime_error "VectorAccess is not allowed in EvalVisitor.")
  visit (if_then_else a b c) st = do
    (x, y, z, t) ← eval_tern (visit a) (visit b) (visit c) st
    ok (push (if truth x.0 then y else z) t)
  visit (for_each l r) st = err (runtime_error "ForEach is not allowed in EvalVisitor.")
  visit (unique n) st = err (runtime_error "Unique is not allowed in EvalVisitor.")
  visit (bitslice n r l) st = do (e, t) ← eval_unary (visit n) st; f ← slice r l e.0; ok (push f t)

  -- `evaluate(expr)`: whether the value is known, and the value as the result
  unfoldable pub evaluate : Node → Evaluator → Result (Bool × Evaluator)
  evaluate n ev = do
    (e, t) ← eval_unary (visit n) ev.store
    ok (e.1, record { store = t; result = e.0 })
