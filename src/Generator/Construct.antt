-- ===== src/Generator/Construct.antt =====
-- The constructor of crave/src/lib/VariableDefaultSolver.cpp: which variables get a BDD solver of their
-- own, and for which of them `solve` may suggest the value in memory. That a CUDD backend is defined is
-- a parameter.
use crave.Prelude.{
  ℕ, ◌*◌, List, [], ◌∷◌, Bool, ◌&&◌, Option, none, some, ◌==◌, ltb, length, if◌then◌else◌,
}
use crave.Prelude.Result.{Result, ok, err, assertion, ◌>>=◌}
use crave.Prelude.IntSet.{IntSet, contains, insert}
use crave.Constraint.{UserConstraint}
use crave.Constraint.Partition.{ConstraintPartition}
use crave.Solver.MetaSmt.{Backend}
use crave.Solver.Problem.{Problem, new_problem, make_assertion}
use crave.Generator.Container.{VariableContainer, restrict}
use crave.Generator.Analysis.{post_constraints, analyse_constraints}
use crave.Generator.Default.{DefaultSolver}

-- the loop over the references with a distribution: the set gets their variables
unfoldable pub vars_with_dist :
    {A : Type 0} → List (ℕ × A) → (ℕ → Option ℕ) → IntSet → Result IntSet
vars_with_dist [] to_var vs = ok vs
vars_with_dist (pair ∷ pairs) to_var vs = elim (to_var pair.0) [
  | none ↦ err assertion
  | some v ↦ vars_with_dist pairs to_var (insert v vs)
]

-- the last loop: the write references whose variables are not in the set, by their ids
unfoldable pub without_dist : {A : Type 0} → List (ℕ × A) → IntSet → List ℕ
without_dist [] vs = []
without_dist (pair ∷ pairs) vs =
    let rest = without_dist pairs vs in if contains pair.0 vs then rest else pair.0 ∷ rest

-- the end of the constructor: nothing, if more than half of the write references have a value
unfoldable pub random_refs : {A : Type 0} → List (ℕ × A) → IntSet → List ℕ
random_refs pairs vs =
    let refs = without_dist pairs vs in if ltb (length pairs) (2 * length vs) then [] else refs

-- `complexity_limit_for_bdd`
abbrev pub complexity_limit_for_bdd : ℕ
complexity_limit_for_bdd = 400

module _ (C : Backend) where
  -- the inner loop: the constraints that a BDD solver takes
  unfoldable pub assert_simple : List UserConstraint → Problem C → Result (Problem C)
  assert_simple [] p = ok p
  assert_simple (c ∷ cs) p =
      if ltb 0 c.complexity && ltb c.complexity complexity_limit_for_bdd
      then (make_assertion C c.expr p >>= λ q. assert_simple cs q)
      else assert_simple cs p

  -- the loop that makes the BDD solvers, with the variables that need no other value so far
  unfoldable pub make_bdds :
      {A : Type 0}
      → (ℕ → List UserConstraint)
      → List (ℕ × A)
      → IntSet
      → Result ((ℕ → Option (Problem C)) × IntSet)
  make_bdds single [] vs = ok ((λ k. none), vs)
  make_bdds single (pair ∷ pairs) vs = elim (single pair.0) [
    | [] ↦ make_bdds single pairs vs
    | c ∷ cs ↦
        if contains pair.0 vs
        then make_bdds single pairs vs
        else (assert_simple (c ∷ cs) (new_problem C) >>= λ b.
            make_bdds single pairs (insert pair.0 vs) >>= λ made.
            ok ((λ k. if pair.0 == k then some b else made.0 k), made.1))
  ]

  -- the BDD solvers, if the backend for them is defined
  unfoldable pub bdds_if :
      {A : Type 0}
      → Bool
      → (ℕ → List UserConstraint)
      → List (ℕ × A)
      → IntSet
      → Result ((ℕ → Option (Problem C)) × IntSet)
  bdds_if is_defined single pairs vs =
      if is_defined then make_bdds single pairs vs else ok ((λ k. none), vs)

module _ (B C : Backend) (M : Type 0) where
  -- the constructor, after `if (bypass_constraint_analysis) return`
  unfoldable pub analysed_solver :
      Bool → VariableContainer M → ConstraintPartition → Problem B → Result (DefaultSolver B C M)
  analysed_solver is_defined ctn cp p = do
    (analysis, q) ← analyse_constraints B cp.constraints p
    vs ← vars_with_dist ctn.dist_references ctn.dist_ref_to_var_map []
    (bdds, ws) ← bdds_if C is_defined cp.single_variable ctn.write_references vs
    ok (record {
      var_ctn = ctn;
      problem = q;
      contradictions = analysis.contradictions;
      bdd_solvers = bdds;
      random_write_refs = random_refs ctn.write_references ws;
    })

  -- `VariableDefaultSolver(vcon, cp)`, with the two static settings
  unfoldable pub new_default_solver :
      Bool → Bool → VariableContainer M → ConstraintPartition → Result (DefaultSolver B C M)
  new_default_solver bypass_constraint_analysis is_defined vcon cp = do
    ctn ← restrict vcon cp
    p ← post_constraints B cp.constraints (new_problem B)
    (if bypass_constraint_analysis
        then ok (record {
          var_ctn = ctn;
          problem = p;
          contradictions = [];
          bdd_solvers = λ k. none;
          random_write_refs = [];
        })
        else analysed_solver is_defined ctn cp p)
