-- ===== src/Ir/Support.antt =====
-- crave/src/lib/GetSupportSetVisitor.cpp: the ids of the variables that an expression reads.
use crave.Prelude.{ℕ, Bool, false, ◌||◌, ◌==◌, ◌≡◌, refl, [], arith}
use crave.Prelude.IntSet.{
  IntSet, contains, insert, contains-insert, IsAscending, insert-IsAscending,
}
use crave.Ir.{
  Node, placeholder, variable_expr, constant, vector_expr, unary, inside, extend_expression, binary,
  vector_access, if_then_else, for_each, unique, bitslice,
}

-- The visit of a node, from the set of ids collected so far to the set after it. `VectorExpr` counts
-- too, `Placeholder` and `Constant` do not.
unfoldable pub visit : Node → IntSet → IntSet
visit (placeholder id) vars = vars
visit (variable_expr id bs s) vars = insert id vars
visit (constant c) vars = vars
visit (vector_expr id bs s) vars = insert id vars
visit (unary op n) vars = visit n vars
visit (inside n cs) vars = visit n vars
visit (extend_expression n k) vars = visit n vars
visit (binary op l r) vars = visit r (visit l vars)
visit (vector_access l r) vars = visit r (visit l vars)
visit (if_then_else a b c) vars = visit c (visit b (visit a vars))
visit (for_each l r) vars = visit r (visit l vars)
visit (unique n) vars = visit n vars
visit (bitslice n r l) vars = visit n vars

-- `getSupportVars()` of a fresh visitor
unfoldable pub support_set : Node → IntSet
support_set n = visit n []

-- The description: a variable or vector with id `v` stands somewhere in the expression.
unfoldable pub occurs : ℕ → Node → Bool
occurs v (placeholder id) = false
occurs v (variable_expr id bs s) = v == id
occurs v (constant c) = false
occurs v (vector_expr id bs s) = v == id
occurs v (unary op n) = occurs v n
occurs v (inside n cs) = occurs v n
occurs v (extend_expression n k) = occurs v n
occurs v (binary op l r) = occurs v l || occurs v r
occurs v (vector_access l r) = occurs v l || occurs v r
occurs v (if_then_else a b c) = occurs v a || (occurs v b || occurs v c)
occurs v (for_each l r) = occurs v l || occurs v r
occurs v (unique n) = occurs v n
occurs v (bitslice n r l) = occurs v n

pub contains-visit :
    (v : ℕ) (n : Node) (vars : IntSet) → contains v (visit n vars) ≡ (occurs v n || contains v vars)
unfolding visit occurs
contains-visit v (placeholder id) vars = refl
contains-visit v (variable_expr id bs s) vars = contains-insert v id vars
contains-visit v (constant c) vars = refl
contains-visit v (vector_expr id bs s) vars = contains-insert v id vars
contains-visit v (unary op n) vars = contains-visit v n vars
contains-visit v (inside n cs) vars = contains-visit v n vars
contains-visit v (extend_expression n k) vars = contains-visit v n vars
contains-visit v (binary op l r) vars =
    ground (arith, contains-visit v l vars, contains-visit v r (visit l vars))
contains-visit v (vector_access l r) vars =
    ground (arith, contains-visit v l vars, contains-visit v r (visit l vars))
contains-visit v (if_then_else a b c) vars = ground (
  arith,
  contains-visit v a vars,
  contains-visit v b (visit a vars),
  contains-visit v c (visit b (visit a vars)),
)
contains-visit v (for_each l r) vars =
    ground (arith, contains-visit v l vars, contains-visit v r (visit l vars))
contains-visit v (unique n) vars = contains-visit v n vars
contains-visit v (bitslice n r l) vars = contains-visit v n vars

pub visit-IsAscending : (n : Node) (vars : IntSet) → IsAscending vars → IsAscending (visit n vars)
unfolding visit
visit-IsAscending (placeholder id) vars h = h
visit-IsAscending (variable_expr id bs s) vars h = insert-IsAscending id vars h
visit-IsAscending (constant c) vars h = h
visit-IsAscending (vector_expr id bs s) vars h = insert-IsAscending id vars h
visit-IsAscending (unary op n) vars h = visit-IsAscending n vars h
visit-IsAscending (inside n cs) vars h = visit-IsAscending n vars h
visit-IsAscending (extend_expression n k) vars h = visit-IsAscending n vars h
visit-IsAscending (binary op l r) vars h =
    visit-IsAscending r (visit l vars) (visit-IsAscending l vars h)
visit-IsAscending (vector_access l r) vars h =
    visit-IsAscending r (visit l vars) (visit-IsAscending l vars h)
visit-IsAscending (if_then_else a b c) vars h =
    let hb = visit-IsAscending b (visit a vars) (visit-IsAscending a vars h) in
    visit-IsAscending c (visit b (visit a vars)) hb
visit-IsAscending (for_each l r) vars h =
    visit-IsAscending r (visit l vars) (visit-IsAscending l vars h)
visit-IsAscending (unique n) vars h = visit-IsAscending n vars h
visit-IsAscending (bitslice n r l) vars h = visit-IsAscending n vars h

-- The collected set holds exactly the ids of the variables and vectors that stand in the
-- expression, each once and in ascending order.
pub support_set-exact :
    (n : Node) → IsAscending (support_set n) × ((v : ℕ) → contains v (support_set n) ≡ occurs v n)
unfolding support_set contains
support_set-exact n = (visit-IsAscending n [] tt, λ v. ground (arith, contains-visit v n []))
