-- ===== src/Ir/Complexity.antt =====
-- crave/src/lib/ComplexityEstimationVisitor.cpp: how hard a constraint may be for a BDD, as an
-- `unsigned int` of 32 bits.
use Prim.Native.String.{String}
use crave.Prelude.{
  Bool-cases, inl, inr, ℕ, ◌+◌, ◌-◌, ◌*◌, ◌%◌, ◌^◌, ◌≡◌, refl, List, [], ◌∷◌, Bool, true, false,
  ◌&&◌, arith, ltb, if◌then◌else◌,
}
use crave.Prelude.Result.{Result, ok, err, runtime_error, ◌>>=◌}
use crave.Ir.{
  BinaryOperator, multiplies_opr, devide_opr, modulo_opr, Node, placeholder, variable_expr,
  constant, vector_expr, unary, inside, extend_expression, binary, vector_access, if_then_else,
  for_each, unique, bitslice,
}
use crave.Ir.Machine.{Visit, pop, eval_unary_expr, eval_bin_expr, eval_tern_expr}

-- a node, rebuilt, with its complexity
abbrev pub Entry : Type 0
Entry = Node × ℕ

abbrev pub u32 : ℕ → ℕ
u32 n = n % 2 ^ 32

-- the product in `visitComplexBinExpr`, which a side without variables leaves as it is
unfoldable pub product : ℕ → ℕ → ℕ
product l r = if ltb 0 l then (if ltb 0 r then u32 (l * r) else l) else r

-- which template each operator's visit calls
unfoldable pub combine : BinaryOperator → ℕ → ℕ → ℕ
combine multiplies_opr l r = product l r
combine devide_opr l r = product l r
combine modulo_opr l r = product l r
combine _ l r = u32 (l + r)

-- `visitSimpleBinExpr` and `visitComplexBinExpr`
abbrev visit_bin_expr : BinaryOperator → Visit Entry → Visit Entry → Visit Entry
visit_bin_expr op l r s = do
  (lhs, rhs, t) ← eval_bin_expr l r s
  ok ((binary op lhs.0 rhs.0, combine op lhs.1 rhs.1) ∷ t)

-- The visit of each kind of node. `Bitslice` has `l ≤ r`, as `Context` checks where it makes one.
unfoldable pub visit : Node → Visit Entry
visit (placeholder id) s =
    err (runtime_error "Placeholder is not allowed in ComplexityEstimationVisitor.")
visit (variable_expr id bs sg) s = ok ((variable_expr id bs sg, bs) ∷ s)
visit (constant c) s = ok ((constant c, 0) ∷ s)
visit (vector_expr id bs sg) s = ok ((vector_expr id bs sg, bs) ∷ s)
visit (unary op n) s = do (e, t) ← eval_unary_expr (visit n) s; ok ((unary op e.0, e.1) ∷ t)
visit (inside n cs) s = do (e, t) ← eval_unary_expr (visit n) s; ok ((inside e.0 cs, e.1) ∷ t)
visit (extend_expression n k) s = do
  (e, t) ← eval_unary_expr (visit n) s
  ok ((extend_expression e.0 k, e.1) ∷ t)
visit (binary op l r) s = visit_bin_expr op (visit l) (visit r) s
visit (vector_access l r) s =
    err (runtime_error "VectorAccess is not allowed in ComplexityEstimationVisitor.")
visit (if_then_else a b c) s = do
  (x, y, z, t) ← eval_tern_expr (visit a) (visit b) (visit c) s
  ok ((if_then_else x.0 y.0 z.0, u32 (x.1 + y.1 + z.1)) ∷ t)
visit (for_each l r) s =
    err (runtime_error "ForEach is not allowed in ComplexityEstimationVisitor.")
visit (unique n) s = err (runtime_error "Unique is not allowed in ComplexityEstimationVisitor.")
visit (bitslice n r l) s = do
  (e, t) ← eval_unary_expr (visit n) s
  ok ((bitslice e.0 r l, r - l + 1) ∷ t)

-- `getComplexityEstimation` of a fresh visitor
unfoldable pub get_complexity_estimation : Node → Result ℕ
get_complexity_estimation n = do s ← visit n []; (e, t) ← pop s; ok e.1

-- The description: what an expression may not hold, and else its complexity, with no stack.
unfoldable pub is_scalar : Node → Bool
is_scalar (placeholder id) = false
is_scalar (unary op n) = is_scalar n
is_scalar (inside n cs) = is_scalar n
is_scalar (extend_expression n k) = is_scalar n
is_scalar (binary op l r) = is_scalar l && is_scalar r
is_scalar (vector_access l r) = false
is_scalar (if_then_else a b c) = is_scalar a && (is_scalar b && is_scalar c)
is_scalar (for_each l r) = false
is_scalar (unique n) = false
is_scalar (bitslice n r l) = is_scalar n
is_scalar _ = true

unfoldable pub complexity : Node → ℕ
complexity (variable_expr id bs sg) = bs
complexity (vector_expr id bs sg) = bs
complexity (unary op n) = complexity n
complexity (inside n cs) = complexity n
complexity (extend_expression n k) = complexity n
complexity (binary op l r) = combine op (complexity l) (complexity r)
complexity (if_then_else a b c) = u32 (complexity a + complexity b + complexity c)
complexity (bitslice n r l) = r - l + 1
complexity _ = 0

-- On an expression that it allows, the visit pushes the node and its complexity.
visit-scalar :
    (n : Node) (s : List Entry) → is_scalar n ≡ true → visit n s ≡ ok ((n, complexity n) ∷ s)
unfolding visit is_scalar complexity
visit-scalar (placeholder id) s h = cc
visit-scalar (variable_expr id bs sg) s h = refl
visit-scalar (constant c) s h = refl
visit-scalar (vector_expr id bs sg) s h = refl
visit-scalar (unary op n) s h = rw (visit-scalar n s h)
visit-scalar (inside n cs) s h = rw (visit-scalar n s h)
visit-scalar (extend_expression n k) s h = rw (visit-scalar n s h)
visit-scalar (binary op l r) s h =
    rw (visit-scalar l s (ground arith)) (rw (visit-scalar r _ (ground arith)))
visit-scalar (vector_access l r) s h = cc
visit-scalar (if_then_else a b c) s h =
    rw (visit-scalar a s (ground arith))
      (rw (visit-scalar b _ (ground arith)) (rw (visit-scalar c _ (ground arith))))
visit-scalar (for_each l r) s h = cc
visit-scalar (unique n) s h = cc
visit-scalar (bitslice n r l) s h = rw (visit-scalar n s h)

visit-refused :
    (n : Node) (s : List Entry)
    → is_scalar n ≡ false
    → (m : String) × (visit n s ≡ err (runtime_error m))
unfolding visit is_scalar
visit-refused (placeholder id) s h = (_, refl)
visit-refused (variable_expr id bs sg) s h = cc
visit-refused (constant c) s h = cc
visit-refused (vector_expr id bs sg) s h = cc
visit-refused (unary op n) s h = let (m, e) = visit-refused n s h in (m, rw e)
visit-refused (inside n cs) s h = let (m, e) = visit-refused n s h in (m, rw e)
visit-refused (extend_expression n k) s h = let (m, e) = visit-refused n s h in (m, rw e)
visit-refused (binary op l r) s h = elim (Bool-cases (is_scalar l)) [
  | inl good ↦
      let (m, e) = visit-refused r ((l, complexity l) ∷ s) (ground arith) in
      (m, rw (visit-scalar l s good) (rw e))
  | inr bad ↦ let (m, e) = visit-refused l s bad in (m, rw e)
]
visit-refused (vector_access l r) s h = (_, refl)
visit-refused (if_then_else a b c) s h = elim (Bool-cases (is_scalar a)) [
  | inr bad ↦ let (m, e) = visit-refused a s bad in (m, rw e)
  | inl good ↦ elim (Bool-cases (is_scalar b)) [
    | inr bad ↦
        let (m, e) = visit-refused b ((a, complexity a) ∷ s) bad in
        (m, rw (visit-scalar a s good) (rw e))
    | inl fine ↦
        let (m, e) = visit-refused c ((b, complexity b) ∷ (a, complexity a) ∷ s) (ground arith) in
        (m, rw (visit-scalar a s good) (rw (visit-scalar b _ fine) (rw e)))
  ]
]
visit-refused (for_each l r) s h = (_, refl)
visit-refused (unique n) s h = (_, refl)
visit-refused (bitslice n r l) s h = let (m, e) = visit-refused n s h in (m, rw e)

-- The estimate of an expression with no placeholder, vector access, `foreach` or `unique` in it is
-- its complexity; any other makes the visitor throw. No `assert` on the stack ever fails.
pub get_complexity_estimation-exact :
    (n : Node)
    → (is_scalar n ≡ true → get_complexity_estimation n ≡ ok (complexity n))
      × (is_scalar n ≡ false → (m : String) × (get_complexity_estimation n ≡ err (runtime_error m)))
unfolding get_complexity_estimation
get_complexity_estimation-exact n =
    (λ h. rw (visit-scalar n [] h), λ h. let (m, e) = visit-refused n [] h in (m, rw e))
