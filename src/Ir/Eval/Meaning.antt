-- ===== src/Ir/Eval/Meaning.antt =====
-- A semantics of expressions under an assignment of their variables, for the results of
-- crave/src/lib/EvalVisitor.cpp.
use crave.Prelude.{
  ℕ, ◌+◌, ◌%◌, ◌^◌, ◌≡◌, refl, List, Bool, true, false, ◌&&◌, some, arith, ◌==◌, if◌then◌else◌,
  Option-cases, Bool-cases, not, inl, inr,
}
use crave.Prelude.Result.{ok}
use crave.Ir.{
  Constant, bool_constant, UnaryOperator, BinaryOperator, equal_opr, Node, variable_expr, constant,
  vector_expr, unary, inside, extend_expression, binary, if_then_else,
}
use crave.Ir.Support.{occurs}
use crave.Ir.Eval.{EvalMap, lookup, update, propagate, before, Evaluator, evaluate}
use crave.Ir.Eval.Value.{Entry, truth, sized, unary_value, is_member, binary_entry}
use crave.Ir.Eval.Direct.{eval_node, is_filled, evaluate-eval_node}

-- The value of an expression, given those of its variables: every part has a value, both branches
-- of a choice included, and no operator is undefined or divides by 0.
pub data Means (env : ℕ → Constant) : Node → Constant → Type 0 where
  variable : (id bs : ℕ) (s : Bool) → Means env (variable_expr id bs s) (env id)
  literal : (c : Constant) → Means env (constant c) c
  whole_vector : (id bs : ℕ) (s : Bool) → Means env (vector_expr id bs s) (env id)
  applied :
      (op : UnaryOperator) {n : Node} {c : Constant}
      → Means env n c
      → Means env (unary op n) (unary_value op c)
  member :
      (cs : List Constant) {n : Node} {c : Constant}
      → Means env n c
      → Means env (inside n cs) (bool_constant (is_member c.value cs))
  extended :
      (k : ℕ) {n : Node} {c : Constant}
      → Means env n c
      → Means env (extend_expression n k) (sized c.value ((c.bitsize + k) % 2 ^ 32) c.sign)
  combined :
      (op : BinaryOperator) {l r : Node} {a b c : Constant}
      → Means env l a
      → Means env r b
      → binary_entry op (a, true) (b, true) ≡ ok (c, true)
      → Means env (binary op l r) c
  chosen :
      {i t e : Node} {x y z : Constant}
      → Means env i x
      → Means env t y
      → Means env e z
      → Means env (if_then_else i t e) (if truth x then y else z)

choice-entry :
    (b : Bool) (y z : Constant)
    → ◌≡◌ {A = Entry} (if b then (y, true) else (z, true)) (if b then y else z, true)
choice-entry true y z = refl
choice-entry false y z = refl

lookup-some :
    (m : EvalMap) (v : ℕ) (c : Constant) → m v ≡ some c → ◌≡◌ {A = Entry} (lookup m v) (c, true)
lookup-some m v c h = rw (h, lookup) refl

-- Every assignment of the first map is in the second.
abbrev pub Keeps : EvalMap → EvalMap → Type 0
Keeps m m' = (v : ℕ) (c : Constant) → m v ≡ some c → m' v ≡ some c

propagate-Keeps : (i j : ℕ) (m : EvalMap) → Keeps m (propagate i j m)
unfolding propagate update
propagate-Keeps i j m v c h = elim (Bool-cases (not (i == 0) && not (j == 0))) [
  | inr other ↦ rw other h
  | inl both ↦ elim (Option-cases (m i)) [
    | inl ni ↦ elim (Option-cases (m j)) [ inl nj ↦ ground arith | inr (d, sj) ↦ ground arith ]
    | inr (d, si) ↦ elim (Option-cases (m j)) [ inl nj ↦ ground arith | inr (f, sj) ↦ ground arith ]
  ]
]

-- The variables of the expression have the values of `env`.
abbrev pub Covers : (ℕ → Constant) → EvalMap → Node → Type 0
Covers env m n = (v : ℕ) → occurs v n ≡ true → m v ≡ some (env v)

module _ (raw_id : Node → ℕ) (env : ℕ → Constant) where
  before-Keeps : (op : BinaryOperator) (l r : Node) (m : EvalMap) → Keeps m (before raw_id op l r m)
  unfolding before
  before-Keeps equal_opr l r m = propagate-Keeps (raw_id l) (raw_id r) m
  before-Keeps _ l r m = λ v c h. h

  eval_node-Means :
      (n : Node) (c : Constant) (m : EvalMap)
      → Means env n c
      → Covers env m n
      → (m' : EvalMap) × (eval_node raw_id n m ≡ ok ((c, true), m')) × Keeps m m'
  unfolding eval_node occurs
  eval_node-Means _ _ m (variable id bs s) k =
      (m, rw (lookup-some m id (env id) (k id (ground arith))) refl, λ v c h. h)
  eval_node-Means _ _ m (literal c) k = (m, refl, λ v c h. h)
  eval_node-Means _ _ m (whole_vector id bs s) k =
      (m, rw (lookup-some m id (env id) (k id (ground arith))) refl, λ v c h. h)
  eval_node-Means _ _ m (applied op {n} {c} d) k =
      let (m', e, g) = eval_node-Means n c m d k in (m', rw e refl, g)
  eval_node-Means _ _ m (member cs {n} {c} d) k =
      let (m', e, g) = eval_node-Means n c m d k in (m', rw e refl, g)
  eval_node-Means _ _ m (extended j {n} {c} d) k =
      let (m', e, g) = eval_node-Means n c m d k in (m', rw e refl, g)
  eval_node-Means _ _ m (combined op {l} {r} {a} {b} {c} d1 d2 f) k =
      let m0 = before raw_id op l r m in
      let (m1, e1, g1) =
        eval_node-Means l a m0 d1 (λ v h. before-Keeps op l r m v _ (k v (ground arith))) in
      let (m2, e2, g2) =
        eval_node-Means r b m1 d2
          (λ v h. g1 v _ (before-Keeps op l r m v _ (k v (ground arith)))) in
      (m2, rw (e1, e2, f) refl, λ v x h. g2 v x (g1 v x (before-Keeps op l r m v x h)))
  eval_node-Means _ _ m (chosen {i} {t} {e} {x} {y} {z} d1 d2 d3) k =
      let (m1, e1, g1) = eval_node-Means i x m d1 (λ v h. k v (ground arith)) in
      let (m2, e2, g2) = eval_node-Means t y m1 d2 (λ v h. g1 v _ (k v (ground arith))) in
      let (m3, e3, g3) = eval_node-Means e z m2 d3 (λ v h. g2 v _ (g1 v _ (k v (ground arith)))) in
      (m3, rw (e1, e2, e3, choice-entry (truth x) y z) refl, λ v x h. g3 v x (g2 v x (g1 v x h)))

  is_filled-Means : (n : Node) (c : Constant) → Means env n c → is_filled n ≡ true
  unfolding is_filled
  is_filled-Means _ _ (variable id bs s) = refl
  is_filled-Means _ _ (literal c) = refl
  is_filled-Means _ _ (whole_vector id bs s) = refl
  is_filled-Means _ _ (applied op {n} {c} d) = is_filled-Means n c d
  is_filled-Means _ _ (member cs {n} {c} d) = is_filled-Means n c d
  is_filled-Means _ _ (extended j {n} {c} d) = is_filled-Means n c d
  is_filled-Means _ _ (combined op {l} {r} {a} {b} {c} d1 d2 f) =
      ground (arith, is_filled-Means l a d1, is_filled-Means r b d2)
  is_filled-Means _ _ (chosen {i} {t} {e} {x} {y} {z} d1 d2 d3) =
      ground (arith, is_filled-Means i x d1, is_filled-Means t y d2, is_filled-Means e z d3)

-- Where all variables of an expression are assigned and the expression has a value, `evaluate`
-- answers that it is known and has it as its result, whatever the casts of `visitEqualOpr` read. The
-- stack is as before, and every assignment is kept.
pub evaluate-Means :
    (raw_id : Node → ℕ) (env : ℕ → Constant) (n : Node) (c : Constant) (ev : Evaluator)
    → Means env n c
    → Covers env ev.store.map n
    → (ev' : Evaluator) × (evaluate raw_id n ev ≡ ok (true, ev'))
      × (ev'.result ≡ c)
      × (ev'.store.stack ≡ ev.store.stack)
      × Keeps ev.store.map ev'.store.map
evaluate-Means raw_id env n c ev d k =
    let (m', e, g) = eval_node-Means raw_id env n c ev.store.map d k in
    let f = evaluate-eval_node raw_id n ev (is_filled-Means raw_id env n c d) in
    (
      record { store = record { map = m'; stack = ev.store.stack }; result = c },
      rw (f, e) refl,
      refl,
      refl,
      g,
    )
