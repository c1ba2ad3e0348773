-- ===== src/Generator/Analysis.antt =====
-- The analysis of a partition's constraints in crave/src/lib/VariableDefaultSolver.cpp: which hard
-- constraints contradict each other, and which soft ones are left out.
use Prim.Native.String.{String}
use crave.Prelude.{ℕ, suc, List, [], ◌∷◌, not, ◌&&◌, none, some, ◌==◌, if◌then◌else◌, get_elem?}
use crave.Prelude.Result.{Result, ok, err, undefined, ◌>>=◌}
use crave.Ir.{Node}
use crave.Constraint.{UserConstraint}
use crave.Solver.MetaSmt.{Backend}
use crave.Solver.Problem.{
  Problem, new_problem, make_assertion, make_soft_assertion, analyse_softs, analyse_contradiction,
}

-- the two results of the analysis
pub record Analysis : Type 0 where
  pub contradictions : List (List String)
  pub inactive_softs : List String

-- the names of the first loop of `analyseHards`, and its expressions by their numbers from `i` on
unfoldable pub hard_names : List UserConstraint → List String
hard_names [] = []
hard_names (c ∷ cs) =
    let rest = hard_names cs in if not c.soft && not c.cover then c.name ∷ rest else rest

unfoldable pub hard_exprs : ℕ → List UserConstraint → List (ℕ × Node)
hard_exprs i [] = []
hard_exprs i (c ∷ cs) =
    if not c.soft && not c.cover then (i, c.expr) ∷ hard_exprs (suc i) cs else hard_exprs i cs

-- the inner loop over one result: an index out of range is undefined
unfoldable pub names_at : List String → List ℕ → Result (List String)
names_at out [] = ok []
names_at out (i ∷ is) = elim (get_elem? out i) [
  | none ↦ err undefined
  | some name ↦ do rest ← names_at out is; ok (name ∷ rest)
]

-- the loop over the results
unfoldable pub all_names_at : List String → List (List ℕ) → Result (List (List String))
all_names_at out [] = ok []
all_names_at out (is ∷ results) = do
  names ← names_at out is
  rest ← all_names_at out results
  ok (names ∷ rest)

-- the loop of `analyseSofts`, with the indices that are left and the number of soft constraints so far
unfoldable pub inactive_from : List ℕ → ℕ → List UserConstraint → List String
inactive_from [] cnt cs = []
inactive_from (i ∷ is) cnt [] = []
inactive_from (i ∷ is) cnt (c ∷ cs) =
    if c.soft
    then (if i == cnt
        then c.name ∷ inactive_from is (suc cnt) cs
        else inactive_from (i ∷ is) (suc cnt) cs)
    else inactive_from (i ∷ is) cnt cs

module _ (B : Backend) where
  -- the loop of the constructor: cover constraints are ignored
  unfoldable pub post_constraints : List UserConstraint → Problem B → Result (Problem B)
  post_constraints [] p = ok p
  post_constraints (c ∷ cs) p =
      if c.cover
      then post_constraints cs p
      else ((if c.soft then make_soft_assertion B c.expr p else make_assertion B c.expr p) >>= λ q.
          post_constraints cs q)

  -- `analyseHards()`, on a solver of its own
  unfoldable pub analyse_hards : List UserConstraint → Result (List (List String))
  analyse_hards cs = do
    (results, _) ← analyse_contradiction B (hard_exprs 0 cs) (new_problem B)
    all_names_at (hard_names cs) results

  -- `analyseSofts()`
  unfoldable pub inactive_names : List UserConstraint → Problem B → List String × Problem B
  inactive_names cs p = let (is, q) = analyse_softs B p in (inactive_from is 0 cs, q)

  -- `analyseConstraints()`
  unfoldable pub analyse_constraints :
      List UserConstraint → Problem B → Result (Analysis × Problem B)
  analyse_constraints cs p = do
    found ← analyse_hards cs
    elim found [
      | [] ↦
          let (names, q) = inactive_names cs p in
          ok (record { contradictions = []; inactive_softs = names }, q)
      | x ∷ xs ↦ ok (record { contradictions = x ∷ xs; inactive_softs = [] }, p)
    ]
