-- ===== src/Tests/Eval.antt =====
-- The theorems on the evaluation of expressions, at concrete inputs: variable 1 is assigned to 7.
use crave.Prelude.{ℕ, ◌-◌, ◌^◌, ◌≡◌, refl, true, false, arith}
use crave.Prelude.Result.{ok, ◌>>=◌}
use crave.Ir.{
  Constant, bool_constant, less_opr, plus_opr, Node, variable_expr, constant, vector_expr, binary,
  if_then_else, bitslice,
}
use crave.Ir.Support.{occurs}
use crave.Ir.Eval.{update, Evaluator, new_evaluator, assign, visit, evaluate}
use crave.Ir.Eval.Value.{sized, binary_entry, plain_value, slice, mask}
use crave.Ir.Eval.Direct.{eval_node, is_filled, outcome, evaluate-eval_node}
use crave.Ir.Eval.Meaning.{Means, variable, literal, combined, Keeps, Covers, evaluate-Means}
use crave.Ir.Eval.Flags.{evaluate_choice_unassigned, evaluate_less_negative}

-- the ids that the casts read, if they read 0 where there is no id
abbrev pub ids : Node → ℕ
ids (variable_expr id bs s) = id
ids (vector_expr id bs s) = id
ids _ = 0

abbrev pub seven : Constant
seven = sized 7 8 false

abbrev pub assigned : Evaluator
assigned = assign 1 seven new_evaluator

-- `v1 + 7`
abbrev pub sum : Node
sum = binary plus_opr (variable_expr 1 8 false) (constant seven)

pub sum-Means : Means (λ v. seven) sum (sized 14 8 false)
unfolding binary_entry plain_value
sum-Means = combined plus_opr (variable 1 8 false) (literal seven) refl

pub sum-Covers : Covers (λ v. seven) assigned.store.map sum
unfolding occurs assign update
sum-Covers v h = ground arith

evaluate-Means_example :
    (ev' : Evaluator) × (evaluate ids sum assigned ≡ ok (true, ev'))
    × (ev'.result ≡ sized 14 8 false)
    × (ev'.store.stack ≡ assigned.store.stack)
    × Keeps assigned.store.map ev'.store.map
evaluate-Means_example =
    evaluate-Means ids (λ v. seven) sum (sized 14 8 false) assigned sum-Means sum-Covers

evaluate-eval_node_example : evaluate ids sum assigned ≡ (
    eval_node ids sum assigned.store.map >>= λ (e, m).
    outcome e (record { map = m; stack = assigned.store.stack }))
unfolding is_filled
evaluate-eval_node_example = evaluate-eval_node ids sum assigned refl

evaluate_choice_unassigned_example :
    evaluate ids
      (if_then_else (variable_expr 2 1 true) (constant seven) (constant (sized 3 8 false)))
      new_evaluator
    ≡ ok (true, record new_evaluator { result = sized 3 8 false })
evaluate_choice_unassigned_example =
    evaluate_choice_unassigned ids 2 1 true seven (sized 3 8 false) new_evaluator refl

abbrev sliced : Evaluator
sliced = record new_evaluator { result = sized 3 2 false }

slice_runs : evaluate ids (bitslice (constant seven) 1 0) new_evaluator ≡ ok (false, sliced)
unfolding evaluate visit slice mask
slice_runs = refl

evaluate_less_negative_example :
    evaluate ids
      (binary less_opr (constant (sized (2 ^ 64 - 1) 8 true)) (constant (sized 1 8 true)))
      new_evaluator
    ≡ ok (true, record new_evaluator { result = bool_constant false })
evaluate_less_negative_example =
    evaluate_less_negative ids (sized (2 ^ 64 - 1) 8 true) (sized 1 8 true) new_evaluator
      (omega arith) (omega arith)
