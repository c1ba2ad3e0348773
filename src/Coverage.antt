-- ===== src/Coverage.antt =====
-- crave/src/crave/experimental/CoverageBins.hpp: bins of a coverpoint, which count how often an
-- expression holds, or how often a sequence of expressions is seen over the samples.
pub mod Steps
pub mod Moves
pub mod Sample
pub mod Refinement
pub mod Build
use crave.Prelude.{
  ℕ, suc, ◌+◌, ◌%◌, ◌^◌, ◌≡◌, refl, List, [], ◌∷◌, ◌++◌, Bool, true, false, not, ◌&&◌, ◌||◌, Option,
  none, some, ltb, leb, ◌==◌, if◌then◌else◌,
}
use crave.Prelude.Result.{Result, ok, ◌>>=◌}
use crave.Ir.{Node}
use crave.Ir.Eval.{Evaluator, evaluate}
use crave.Ir.Eval.Value.{truth}

-- `nodeType`
pub data NodeType : Type 0 where
  goto consec non_consec : NodeType

-- `crv_transition_fsm_state`; a pointer to a state is the number of a cell.
pub record FsmState : Type 0 where
  pub kind : NodeType
  pub succ_state : Option ℕ
  pub prev_state : Option ℕ
  pub expr : Node
  pub min_hit : ℕ
  pub max_hit : ℕ

-- `run`
pub record Run : Type 0 where
  pub state : ℕ
  pub count : ℕ

-- `resultRuns` and `hit`, which the calls share through references
pub record Progress : Type 0 where
  pub result_runs : List Run
  pub hit : Bool

-- `crv_abstract_bin` with the fields of `crv_transition_bin`
pub record TransitionBin : Type 0 where
  pub hit_minimum : ℕ
  pub hit_count : ℕ
  pub root : ℕ
  pub runs : List Run

-- `crv_transition_bin(rootNode)`
abbrev pub new_transition_bin : ℕ → TransitionBin
new_transition_bin root = record { hit_minimum = 1; hit_count = 0; root = root; runs = [] }

-- `covered()`
abbrev pub covered : TransitionBin → Bool
covered b = leb b.hit_minimum b.hit_count

-- `incrementHit()`, an `unsigned`
unfoldable pub increment_hit : TransitionBin → TransitionBin
increment_hit b = record b { hit_count = suc b.hit_count % 2 ^ 32 }

-- `eval_.evaluate(expr) && eval_.result<bool>()`
unfoldable pub holds : (Node → ℕ) → Node → Evaluator → Result (Bool × Evaluator)
holds raw_id n ev = do (known, ev') ← evaluate raw_id n ev; ok (known && truth ev'.result, ev')

abbrev pub push_back : Run → Progress → Progress
push_back r out = record out { result_runs = out.result_runs ++ r ∷ [] }

-- the test for no successor, and what each answer does
unfoldable pub follow : FsmState → Progress → Progress
follow s out = elim s.succ_state [
  | none ↦ record out { hit = true }
  | some t ↦ push_back (record { state = t; count = 0 }) out
]

-- `calcHit(eval_, current, resultRuns, hit)`
unfoldable pub calc_hit : FsmState → Run → Progress → Progress
calc_hit s current out =
    let counted : Run = record { state = current.state; count = suc current.count } in
    if ltb counted.count s.min_hit
    then push_back counted out
    else if leb s.min_hit counted.count && ltb counted.count s.max_hit
    then follow s (push_back counted out)
    else follow s out

-- `softFail`
unfoldable pub soft_fail : Run → Progress → Progress
soft_fail current out = push_back current out

-- `state->type == NON_CONSEC` and `state->type == CONSEC`
abbrev pub is_non_consec : NodeType → Bool
is_non_consec non_consec = true
is_non_consec _ = false

abbrev pub is_consec : NodeType → Bool
is_consec consec = true
is_consec _ = false

-- The state `E` of the evaluator and its test are what the bins use of `Evaluator`.
module _ {E : Type 0} (test : Node → E → Result (Bool × E)) (fsm : ℕ → FsmState) where
  -- `hardFail`
  unfoldable pub hard_fail : Run → Progress → E → Result (Progress × E)
  hard_fail current out e = elim (fsm current.state).prev_state [
    | none ↦ ok (out, e)
    | some q ↦ (elim (is_non_consec (fsm q).kind) [
      | false ↦ ok (out, e)
      | true ↦ (do
        (hit_again, e') ← test (fsm q).expr e
        ok (if hit_again then out else push_back current out, e'))
    ])
  ]

  -- `checkRun`
  unfoldable pub check_run : Run → Progress → E → Result (Progress × E)
  check_run current out e = do
    (was_hit, e') ← test (fsm current.state).expr e
    elim was_hit [
      | true ↦ ok (calc_hit (fsm current.state) current out, e')
      | false ↦ (elim (is_consec (fsm current.state).kind) [
        | true ↦ hard_fail current out e'
        | false ↦ ok (soft_fail current out, e')
      ])
    ]

  -- the loop over `runs`
  unfoldable pub check_runs : List Run → Progress → E → Result (Progress × E)
  check_runs [] out e = ok (out, e)
  check_runs (r ∷ rs) out e = do (out', e') ← check_run r out e; check_runs rs out' e'

  -- `crv_transition_bin::calcHit(eval_)`
  unfoldable pub sample : TransitionBin → E → Result (TransitionBin × E)
  sample b e = do
    (out, e1) ← check_runs b.runs (record { result_runs = []; hit = false }) e
    (starts, e2) ← test (fsm b.root).expr e1
    (done, e3) ← (elim starts [
      | true ↦ check_run (record { state = b.root; count = 0 }) out e2
      | false ↦ ok (out, e2)
    ])
    ok (record (if done.hit then increment_hit b else b) { runs = done.result_runs }, e3)
