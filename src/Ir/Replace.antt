-- ===== src/Ir/Replace.antt =====
-- crave/src/crave/ir/visitor/ReplaceVisitor.hpp, crave/src/lib/ReplaceVisitor.cpp: the instance of the
-- body of a `foreach` at one index. The visitor builds the new tree on one stack, and on another the
-- `int` that each subexpression has at the index, which is the subscript where a vector is accessed.
pub mod Subscript
pub mod Reference
pub mod Follows
pub mod Access
pub mod Correct
pub mod Sure
use crave.Prelude.{
  ℕ, zero, suc, List, [], ◌∷◌, Bool, true, false, not, ◌&&◌, Option, none, some, ◌==◌, length,
  get_elem?, set, if◌then◌else◌,
}
use crave.Prelude.Result.{Result, ok, err, runtime_error, out_of_range, undefined, ◌>>=◌}
use crave.Prelude.Int.{ℤ, pos, of_unsigned, of_bool, to_bool, is_negative_int, ltb_ℤ, pos_part}
use crave.Ir.{
  Constant, Node, placeholder, variable_expr, constant, vector_expr, unary, inside,
  extend_expression, binary, vector_access, if_then_else, for_each, unique, bitslice,
}
use crave.Ir.FixWidth.{placeholder_bitsize}
use crave.Ir.Machine.{pop, pop2, pop3}
use crave.Ir.Replace.Subscript.{unary_subscript, binary_subscript}

-- a `VariableExpr` of `variables_`
pub record Element : Type 0 where
  pub id : ℕ
  pub bitsize : ℕ
  pub sign : Bool

abbrev pub element_node : Element → Node
element_node e = variable_expr (e.id) (e.bitsize) (e.sign)

-- `variables_`, which is the solver's `vec_elements_`, `terminals_` and `okay_`
pub record Memory : Type 0 where
  pub variables : List Element
  pub terminals : ℕ → Option Node
  pub okay : Bool

-- the fields of `ReplaceVisitor`
pub record Visitor : Type 0 where
  pub vec_idx : ℕ
  pub memory : Memory
  pub aux_stack : List Node
  pub subscript_stack : List ℤ
  pub last : Option Node

-- a new visitor, or the state after `reset()`, with `setVecIdx(i)`
abbrev pub start_at : List Element → ℕ → Visitor
start_at vs i = record {
  vec_idx = i;
  memory = record { variables = vs; terminals = λ id. none; okay = true };
  aux_stack = [];
  subscript_stack = [];
  last = none;
}

abbrev pub Visit : Type 0
Visit = Visitor → Result Visitor

-- `aux_stack_.push(n); updateResult();`
abbrev pub push_node : Node → Visitor → Visitor
push_node n s = record s { aux_stack = n ∷ s.aux_stack; last = some n }

abbrev pub push_subscript : ℤ → Visitor → Visitor
push_subscript x s = record s { subscript_stack = x ∷ s.subscript_stack }

-- A terminal with an id: the node that the id has, or a new one.
unfoldable pub visit_terminal : ℕ → Node → Visitor → Visitor
visit_terminal id fresh s = elim (s.memory.terminals id) [
  | some n ↦ push_node n s
  | none ↦ push_node fresh (record s {
    memory = record (s.memory) {
      terminals = λ k. if id == k then some fresh else s.memory.terminals k;
    };
  })
]

-- `evalUnaryExpr`
abbrev pub eval_unary : Visit → Visitor → Result (Node × Visitor)
eval_unary v s = do t ← v s; (n, rest) ← pop t.aux_stack; ok (n, record t { aux_stack = rest })

-- `evalBinExpr`
abbrev pub eval_bin : Visit → Visit → Visitor → Result (Node × Node × Visitor)
eval_bin l r s = do
  t ← l s
  u ← r t
  (rhs, lhs, rest) ← pop2 u.aux_stack
  ok (lhs, rhs, record u { aux_stack = rest })

-- `evalTernExpr`
abbrev pub eval_tern : Visit → Visit → Visit → Visitor → Result (Node × Node × Node × Visitor)
eval_tern a b c s = do
  t ← a s
  u ← b t
  w ← c u
  (z, y, x, rest) ← pop3 w.aux_stack
  ok (x, y, z, record w { aux_stack = rest })

-- `subscript_stack_.top()` and a `pop()`, undefined on the empty stack, then a push of the new one
abbrev pub unary_top : (ℤ → Result ℤ) → Visitor → Result Visitor
unary_top f s = elim (s.subscript_stack) [
  | [] ↦ err undefined
  | x ∷ xs ↦ f x >>= λ y. ok (record s { subscript_stack = y ∷ xs })
]

-- `evalBinSubscript`, and a push
abbrev pub binary_top : (ℤ → ℤ → Result ℤ) → Visitor → Result Visitor
binary_top f s = do
  (y, x, rest) ← pop2 s.subscript_stack
  z ← f x y
  ok (record s { subscript_stack = z ∷ rest })

-- `evalTernSubscript`, and the push of the subscript of `visitIfThenElse`
abbrev pub ternary_top : Visitor → Result Visitor
ternary_top s = do
  (z, y, x, rest) ← pop3 s.subscript_stack
  ok (record s { subscript_stack = (if to_bool x then y else z) ∷ rest })

-- `0 <= i && i < static_cast<int>(variables_->size())`
abbrev pub is_within : ℤ → ℕ → Bool
is_within i size = not (is_negative_int i) && ltb_ℤ i (of_unsigned size)

-- the branch of an index in range: the cast of the left side, and the element with its size and sign
unfoldable pub access_element : Node → ℕ → Visitor → Result Visitor
access_element (vector_expr id bs sg) i s = elim (get_elem? s.memory.variables i) [
  | none ↦ err out_of_range
  | some e ↦
      let var : Element = record e { bitsize = bs; sign = sg } in
      ok (
        push_node (element_node var)
          (record s { memory = record (s.memory) { variables = set s.memory.variables i var } }))
]
access_element _ i s = err undefined

-- the other branch
unfoldable pub access_first : Visitor → Result Visitor
access_first s = elim (get_elem? s.memory.variables 0) [
  | none ↦ err out_of_range
  | some e ↦
      ok (push_node (element_node e) (record s { memory = record (s.memory) { okay = false } }))
]

-- the end of `visitVectorAccess`, after `evalBinExpr`
unfoldable pub access : Node → Visitor → Result Visitor
access lhs s = do
  (i, x, rest) ← pop2 s.subscript_stack
  let popped = record s { subscript_stack = rest }
  t ←
      if is_within i (length s.memory.variables)
      then access_element lhs (pos_part i) popped
      else access_first popped
  ok (push_subscript (pos 0) t)

-- the visit of each kind of node
unfoldable pub visit : Node → Visit
visit (placeholder id) s = ok (
    push_subscript (of_unsigned (s.vec_idx)) (
      visit_terminal id
        (constant (record { value = s.vec_idx; bitsize = placeholder_bitsize; sign = false })) s))
visit (variable_expr id bs sg) s =
    ok (push_subscript (pos 0) (visit_terminal id (variable_expr id bs sg) s))
visit (constant c) s = ok (push_subscript (of_unsigned (c.value)) (push_node (constant c) s))
visit (vector_expr id bs sg) s =
    ok (push_subscript (pos 0) (visit_terminal id (vector_expr id bs sg) s))
visit (unary op n) s = do
  (child, t) ← eval_unary (visit n) s
  unary_top (unary_subscript op) (push_node (unary op child) t)
visit (inside n cs) s = do (child, t) ← eval_unary (visit n) s; ok (push_node (inside child cs) t)
visit (extend_expression n k) s = do
  (child, t) ← eval_unary (visit n) s
  ok (push_node (extend_expression child k) t)
visit (binary op l r) s = do
  (lhs, rhs, t) ← eval_bin (visit l) (visit r) s
  binary_top (binary_subscript op) (push_node (binary op lhs rhs) t)
visit (vector_access l r) s = do (lhs, rhs, t) ← eval_bin (visit l) (visit r) s; access lhs t
visit (if_then_else a b c) s = do
  (x, y, z, t) ← eval_tern (visit a) (visit b) (visit c) s
  ternary_top (push_node (if_then_else x y z) t)
visit (for_each l r) s = visit r s
visit (unique n) s = err (runtime_error "Unique is not allowed in ReplaceVisitor.")
visit (bitslice n r l) s = do
  (child, t) ← eval_unary (visit n) s
  unary_top (λ x. ok (of_bool (not (to_bool x)))) (push_node (bitslice child r l) t)
