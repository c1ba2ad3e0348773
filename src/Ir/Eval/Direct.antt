-- ===== src/Ir/Eval/Direct.antt =====
-- The visitor of crave/src/lib/EvalVisitor.cpp without its stack: a recursion that takes the assignment
-- to an entry and the assignment after it.
use crave.Prelude.{
  ℕ, ◌+◌, ◌%◌, ◌^◌, ◌≡◌, refl, List, ◌∷◌, Bool, true, false, ◌&&◌, arith, if◌then◌else◌,
}
use crave.Prelude.Result.{Result, ok, err, assertion, runtime_error, ◌>>=◌}
use crave.Ir.{
  bool_constant, Node, placeholder, variable_expr, constant, vector_expr, unary, inside,
  extend_expression, binary, vector_access, if_then_else, for_each, unique, bitslice,
}
use crave.Ir.Eval.{
  EvalMap, Store, Visit, push, lookup, eval_unary, eval_bin, eval_tern, before, visit, Evaluator,
  evaluate,
}
use crave.Ir.Machine.{pop2, pop3}
use crave.Ir.Eval.Value.{Entry, truth, sized, unary_value, is_member, binary_entry, slice}

abbrev pub Step : Type 0
Step = EvalMap → Result (Entry × EvalMap)

-- A step, as a visit: its entry goes on the stack.
abbrev pub pushes : Result (Entry × EvalMap) → List Entry → Result Store
pushes r s = r >>= λ (e, m). ok (record { map = m; stack = e ∷ s })

-- No placeholder stands where it would be visited.
unfoldable pub is_filled : Node → Bool
is_filled (placeholder id) = false
is_filled (unary op n) = is_filled n
is_filled (inside n cs) = is_filled n
is_filled (extend_expression n k) = is_filled n
is_filled (binary op l r) = is_filled l && is_filled r
is_filled (if_then_else a b c) = is_filled a && (is_filled b && is_filled c)
is_filled (bitslice n r l) = is_filled n
is_filled _ = true

-- The visit of the operands, and the entry that is made of theirs, step by step.
finish :
    (r : Result Entry) (m : EvalMap) (s : List Entry)
    → (r >>= λ e. ok (push e (record { map = m; stack = s }))) ≡ pushes (r >>= λ e. ok (e, m)) s
finish (ok e) m s = refl
finish (err f) m s = refl

unary_pushes :
    (v : Visit) (r : Result (Entry × EvalMap)) (f : Entry → Result Entry) (st : Store)
    → v st ≡ pushes r st.stack
    → (eval_unary v st >>= λ (e, t). f e >>= λ g. ok (push g t))
      ≡ pushes (r >>= λ (e, m). f e >>= λ g. ok (g, m)) st.stack
unary_pushes v (ok (e, m)) f st h = rw h (finish (f e) m st.stack)
unary_pushes v (err x) f st h = rw h refl

bin_finish :
    (r : Result (Entry × EvalMap)) (a : Entry) (f : Entry → Entry → Result Entry) (s : List Entry)
    → ((pushes r (a ∷ s) >>= λ u.
          pop2 u.stack >>= λ (snd, fst, w). ok (fst, snd, record u { stack = w }))
        >>= λ (x, y, t). f x y >>= λ g. ok (push g t))
      ≡ pushes (r >>= λ (y, m). f a y >>= λ g. ok (g, m)) s
bin_finish (ok (b, m)) a f s = finish (f a b) m s
bin_finish (err x) a f s = refl

bin_pushes :
    (l r : Visit) (a : Result (Entry × EvalMap)) (b : Step) (f : Entry → Entry → Result Entry)
    (st : Store)
    → l st ≡ pushes a st.stack
    → ((u : Store) → r u ≡ pushes (b u.map) u.stack)
    → (eval_bin l r st >>= λ (x, y, t). f x y >>= λ g. ok (push g t))
      ≡ pushes (a >>= λ (x, m). b m >>= λ (y, m'). f x y >>= λ g. ok (g, m')) st.stack
bin_pushes l r (ok (x, m)) b f st hl hr = rw hl (rw (hr _) (bin_finish (b m) x f st.stack))
bin_pushes l r (err x) b f st hl hr = rw hl refl

tern_finish :
    (r : Result (Entry × EvalMap)) (a b : Entry) (f : Entry → Entry → Entry → Entry)
    (s : List Entry)
    → ((pushes r (b ∷ a ∷ s) >>= λ u.
          pop3 u.stack >>= λ (trd, snd, fst, w). ok (fst, snd, trd, record u { stack = w }))
        >>= λ (x, y, z, t). ok (push (f x y z) t))
      ≡ pushes (r >>= λ (z, m). ok (f a b z, m)) s
tern_finish (ok (c, m)) a b f s = refl
tern_finish (err x) a b f s = refl

tern_middle :
    (q : Visit) (r : Result (Entry × EvalMap)) (c : Step) (a : Entry)
    (f : Entry → Entry → Entry → Entry) (s : List Entry)
    → ((u : Store) → q u ≡ pushes (c u.map) u.stack)
    → ((pushes r (a ∷ s) >>= λ u. q u >>= λ w.
          pop3 w.stack >>= λ (trd, snd, fst, k). ok (fst, snd, trd, record w { stack = k }))
        >>= λ (x, y, z, t). ok (push (f x y z) t))
      ≡ pushes (r >>= λ (y, m). c m >>= λ (z, m'). ok (f a y z, m')) s
tern_middle q (ok (b, m)) c a f s h = rw (h _) (tern_finish (c m) a b f s)
tern_middle q (err x) c a f s h = refl

tern_pushes :
    (l p q : Visit) (a : Result (Entry × EvalMap)) (b c : Step) (f : Entry → Entry → Entry → Entry)
    (st : Store)
    → l st ≡ pushes a st.stack
    → ((u : Store) → p u ≡ pushes (b u.map) u.stack)
    → ((u : Store) → q u ≡ pushes (c u.map) u.stack)
    → (eval_tern l p q st >>= λ (x, y, z, t). ok (push (f x y z) t))
      ≡ pushes (a >>= λ (x, m). b m >>= λ (y, m'). c m' >>= λ (z, k). ok (f x y z, k)) st.stack
tern_pushes l p q (ok (x, m)) b c f st hl hp hq =
    rw hl (rw (hp _) (tern_middle q (b m) c x f st.stack hq))
tern_pushes l p q (err x) b c f st hl hp hq = rw hl refl

-- what `evaluate` returns
abbrev pub outcome : Entry → Store → Result (Bool × Evaluator)
outcome e st = ok (e.1, record { store = st; result = e.0 })

popped :
    (v : Visit) (r : Result (Entry × EvalMap)) (st : Store)
    → v st ≡ pushes r st.stack
    → (eval_unary v st >>= λ (e, t). outcome e t)
      ≡ (r >>= λ (e, m). outcome e (record { map = m; stack = st.stack }))
popped v (ok (e, m)) st h = rw h refl
popped v (err x) st h = rw h refl

module _ (raw_id : Node → ℕ) where
  -- A placeholder, whose visit pushes nothing, is left out by `is_filled`.
  unfoldable pub eval_node : Node → Step
  eval_node (placeholder id) m = err assertion
  eval_node (variable_expr id bs sg) m = ok (lookup m id, m)
  eval_node (constant c) m = ok ((c, true), m)
  eval_node (vector_expr id bs sg) m = ok (lookup m id, m)
  eval_node (unary op n) m = do (e, m1) ← eval_node n m; ok ((unary_value op e.0, e.1), m1)
  eval_node (inside n cs) m = do
    (e, m1) ← eval_node n m
    ok ((bool_constant (is_member e.0.value cs), e.1), m1)
  eval_node (extend_expression n k) m = do
    (e, m1) ← eval_node n m
    ok ((sized e.0.value ((e.0.bitsize + k) % 2 ^ 32) e.0.sign, e.1), m1)
  eval_node (binary op l r) m = do
    (a, m1) ← eval_node l (before raw_id op l r m)
    (b, m2) ← eval_node r m1
    e ← binary_entry op a b
    ok (e, m2)
  eval_node (vector_access l r) m =
      err (runtime_error "VectorAccess is not allowed in EvalVisitor.")
  eval_node (if_then_else a b c) m = do
    (x, m1) ← eval_node a m
    (y, m2) ← eval_node b m1
    (z, m3) ← eval_node c m2
    ok (if truth x.0 then y else z, m3)
  eval_node (for_each l r) m = err (runtime_error "ForEach is not allowed in EvalVisitor.")
  eval_node (unique n) m = err (runtime_error "Unique is not allowed in EvalVisitor.")
  eval_node (bitslice n r l) m = do (e, m1) ← eval_node n m; f ← slice r l e.0; ok (f, m1)

  pub visit-eval_node :
      (n : Node) (st : Store)
      → is_filled n ≡ true
      → visit raw_id n st ≡ pushes (eval_node n st.map) st.stack
  unfolding visit eval_node is_filled
  visit-eval_node (placeholder id) st h = cc
  visit-eval_node (variable_expr id bs sg) st h = refl
  visit-eval_node (constant c) st h = refl
  visit-eval_node (vector_expr id bs sg) st h = refl
  visit-eval_node (unary op n) st h =
      unary_pushes (visit raw_id n) _ (λ e. ok (unary_value op e.0, e.1)) st
        (visit-eval_node n st h)
  visit-eval_node (inside n cs) st h =
      unary_pushes (visit raw_id n) _ (λ e. ok (bool_constant (is_member e.0.value cs), e.1)) st
        (visit-eval_node n st h)
  visit-eval_node (extend_expression n k) st h =
      unary_pushes (visit raw_id n) _
        (λ e. ok (sized e.0.value ((e.0.bitsize + k) % 2 ^ 32) e.0.sign, e.1)) st
        (visit-eval_node n st h)
  visit-eval_node (binary op l r) st h =
      bin_pushes (visit raw_id l) (visit raw_id r) _ (eval_node r) (binary_entry op)
        (record st { map = before raw_id op l r st.map }) (visit-eval_node l _ (ground arith))
        (λ u. visit-eval_node r u (ground arith))
  visit-eval_node (vector_access l r) st h = refl
  visit-eval_node (if_then_else a b c) st h =
      tern_pushes (visit raw_id a) (visit raw_id b) (visit raw_id c) _ (eval_node b) (eval_node c)
        (λ x y z. if truth x.0 then y else z) st (visit-eval_node a st (ground arith))
        (λ u. visit-eval_node b u (ground arith)) (λ u. visit-eval_node c u (ground arith))
  visit-eval_node (for_each l r) st h = refl
  visit-eval_node (unique n) st h = refl
  visit-eval_node (bitslice n r l) st h =
      unary_pushes (visit raw_id n) _ (λ e. slice r l e.0) st (visit-eval_node n st h)

  -- Where no placeholder stands in the expression, `evaluate` is the recursion, stops where it stops,
  -- and leaves the stack as it was: no assertion on the stack fails.
  pub evaluate-eval_node :
      (n : Node) (ev : Evaluator)
      → is_filled n ≡ true
      → evaluate raw_id n ev ≡ (
          eval_node n ev.store.map >>= λ (e, m).
          outcome e (record { map = m; stack = ev.store.stack }))
  unfolding evaluate
  evaluate-eval_node n ev h =
      popped (visit raw_id n) (eval_node n ev.store.map) ev.store (visit-eval_node n ev.store h)
