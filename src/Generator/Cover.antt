-- ===== src/Generator/Cover.antt =====
-- crave/src/lib/VariableCoverageSolver.cpp: the solver that hits the cover constraints of a partition one
-- after the other.
use Prim.Native.String.{String}
use text.Mathlib.Text.{◌==◌ as str_eq}
use crave.Prelude.{ℕ, List, [], ◌∷◌, Bool, true, false, not, ◌||◌, ◌&&◌, none, some, if◌then◌else◌}
use crave.Prelude.Result.{Result, ok, ◌>>=◌}
use crave.Prelude.Random.{Random}
use crave.Ir.{Node}
use crave.Constraint.{UserConstraint}
use crave.Constraint.Partition.{ConstraintPartition}
use crave.Solver.MetaSmt.{Backend}
use crave.Solver.Problem.{Problem, new_problem, make_assertion, make_assumption, solve, read}
use crave.Generator.Container.{VariableContainer, restrict}

-- `covered_set_.find(name) != end()`
unfoldable pub is_named : String → List String → Bool
is_named name [] = false
is_named name (s ∷ ss) = str_eq name s || is_named name ss

-- the two kinds of constraints that the loop of `solve()` passes by
abbrev pub is_passed : UserConstraint → List String → Bool
is_passed c covered = not c.cover || is_named c.name covered

pub record CoverageSolver (B : Backend) (M : Type 0) : Type 0 where
  pub var_ctn : VariableContainer M
  pub constr_pttn : ConstraintPartition
  pub problem : Problem B
  pub covered_set : List String

module _ (B : Backend) where
  -- the loop of the constructor: hard constraints that are no cover ones are asserted
  unfoldable pub assert_hards : List UserConstraint → Problem B → Result (Problem B)
  assert_hards [] p = ok p
  assert_hards (c ∷ cs) p =
      if not c.soft && not c.cover
      then (make_assertion B c.expr p >>= λ q. assert_hards cs q)
      else assert_hards cs p

  -- the loops over the references: an assumption of each that is read
  unfoldable pub assume_refs :
      {M : Type 0} → List (ℕ × (M → Node)) → M → Problem B → Result (Problem B)
  assume_refs [] m p = ok p
  assume_refs (pair ∷ pairs) m p = do q ← make_assumption B (pair.1 m) p; assume_refs pairs m q

  -- and a write of each that has a value
  unfoldable pub write_refs : {M : Type 0} → List (ℕ × (String → M → M)) → Problem B → M → M
  write_refs [] p m = m
  write_refs (pair ∷ pairs) p m =
      write_refs pairs p (elim (read B pair.0 p) [ none ↦ m | some value ↦ pair.1 value m ])

  module _ (M : Type 0) where
    -- `VariableCoverageSolver(vcon, cp)`
    unfoldable pub new_coverage_solver :
        VariableContainer M → ConstraintPartition → Result (CoverageSolver B M)
    new_coverage_solver vcon cp = do
      ctn ← restrict vcon cp
      p ← assert_hards cp.constraints (new_problem B)
      ok (record { var_ctn = ctn; constr_pttn = cp; problem = p; covered_set = [] })

    module _ (R : Random (B.Expr)) where
      -- The state of a call: the solver, the memory and the source of chance.
      abbrev pub Machine : Type 0
      Machine = CoverageSolver B M × M × R.Rng

      -- what follows the call of `solver_->solve()`
      unfoldable pub after_solve :
          UserConstraint → CoverageSolver B M → M → Bool × Problem B × R.Rng → Bool × Machine
      after_solve c s m (true, p, r) = (
        true,
        (
          record s { problem = p; covered_set = c.name ∷ s.covered_set },
          write_refs s.var_ctn.write_references p m,
          r,
        ),
      )
      after_solve c s m (false, p, r) = (false, (record s { problem = p }, m, r))

      -- the body of the loop of `solve()`, for a cover constraint that is not covered
      unfoldable pub try_constraint : UserConstraint → Machine → Result (Bool × Machine)
      try_constraint c (s, m, r) = do
        p1 ← assume_refs s.var_ctn.read_references m s.problem
        p2 ← make_assumption B c.expr p1
        answer ← solve B R true p2 r
        ok (after_solve c s m answer)

      -- the loop
      unfoldable pub try_all : List UserConstraint → Machine → Result (Bool × Machine)
      try_all [] st = ok (false, st)
      try_all (c ∷ cs) st =
          if is_passed c st.0.covered_set
          then try_all cs st
          else (try_constraint c st >>= λ (hit, t). elim hit [
            | true ↦ ok (true, t)
            | false ↦ try_all cs t
          ])

      -- `solve()`
      unfoldable pub solve_coverage : Machine → Result (Bool × Machine)
      solve_coverage st = try_all st.0.constr_pttn.constraints st
