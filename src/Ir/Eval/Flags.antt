-- ===== src/Ir/Eval/Flags.antt =====
-- Where the answers of crave/src/lib/EvalVisitor.cpp and the values of expressions part.
use crave.Prelude.{ℕ, ◌^◌, ◌≤◌, ◌<◌, ◌≡◌, ap, refl, Bool, true, false, none, arith, ltb, List}
use crave.Prelude.Result.{ok, ◌>>=◌, >>=-Returns}
use crave.Ir.{
  Constant, bool_constant, less_opr, Node, variable_expr, constant, binary, if_then_else, bitslice,
}
use crave.Ir.Eval.{EvalMap, lookup, before, Evaluator, evaluate}
use crave.Ir.Eval.Value.{Entry, binary_entry, plain_value, slice}
use crave.Ir.Eval.Direct.{eval_node, is_filled, outcome, evaluate-eval_node}

module _ (raw_id : Node → ℕ) where
  -- A choice between constants by a variable that is not assigned is taken for known, with the
  -- second constant as its value.
  pub evaluate_choice_unassigned :
      (id bs : ℕ) (s : Bool) (a b : Constant) (ev : Evaluator)
      → ev.store.map id ≡ none
      → evaluate raw_id (if_then_else (variable_expr id bs s) (constant a) (constant b)) ev
        ≡ ok (true, record ev { result = b })
  unfolding eval_node is_filled
  evaluate_choice_unassigned id bs s a b ev h =
      rw
        (
          evaluate-eval_node raw_id (if_then_else (variable_expr id bs s) (constant a) (constant b))
              ev refl,
          h,
          lookup,
        )
        refl

  slice_unknown : (r l : ℕ) (c : Constant) (e : Entry) → slice r l c ≡ ok e → e.1 ≡ false
  unfolding slice
  slice_unknown r l c e h = ground arith

  known_of :
      (p : Entry × EvalMap) (x : Entry) (m : EvalMap) (k : List Entry) (known : Bool)
      (ev' : Evaluator)
      → ok (x, m) ≡ ok p
      → outcome p.0 (record { map = p.1; stack = k }) ≡ ok (known, ev')
      → x.1 ≡ false
      → known ≡ false
  known_of p x m k known ev' h e f =
      let q : ◌≡◌ {A = Entry × EvalMap} (x, m) p = cc h in
      let r : ◌≡◌ {A = Bool × Evaluator}
          (p.0.1, record { store = record { map = p.1; stack = k }; result = p.0.0 }) (known, ev') =
        cc e in
      cc (ap (λ (t : Bool × Evaluator). t.0) r, ap (λ (t : Entry × EvalMap). t.0.1) q, f)

  -- No bit slice is ever taken for known, even of a constant.
  pub evaluate_slice_unknown :
      (n : Node) (r l : ℕ) (ev : Evaluator) (known : Bool) (ev' : Evaluator)
      → is_filled n ≡ true
      → evaluate raw_id (bitslice n r l) ev ≡ ok (known, ev')
      → known ≡ false
  unfolding eval_node is_filled
  evaluate_slice_unknown n r l ev known ev' h e =
      let f = evaluate-eval_node raw_id (bitslice n r l) ev h in
      let g = eval_node raw_id (bitslice n r l) ev.store.map in
      let returned : (g >>= λ (x, m). outcome x (record { map = m; stack = ev.store.stack }))
          ≡ ok (known, ev') =
        cc (f, e) in
      let (p, e1, e2) = >>=-Returns g _ returned in
      let (q, _, e3) = >>=-Returns (eval_node raw_id n ev.store.map) _ e1 in
      let (x, e4, e5) = >>=-Returns (slice r l q.0.0) _ e3 in
      known_of p x q.1 ev.store.stack known ev' e5 e2 (slice_unknown r l q.0.0 x e4)

  -- Signed constants are compared as unsigned ones: a negative number is not less than any other
  -- that is not negative.
  pub evaluate_less_negative :
      (a b : Constant) (ev : Evaluator)
      → 2 ^ 63 ≤ a.value
      → b.value < 2 ^ 63
      → evaluate raw_id (binary less_opr (constant a) (constant b)) ev
        ≡ ok (true, record ev { result = bool_constant false })
  unfolding eval_node is_filled before binary_entry plain_value
  evaluate_less_negative a b ev ha hb =
      let not_less : ltb a.value b.value ≡ false = ground arith in
      rw (evaluate-eval_node raw_id (binary less_opr (constant a) (constant b)) ev refl, not_less)
        refl
