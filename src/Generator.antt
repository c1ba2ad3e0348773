-- ===== src/Generator.antt =====
-- crave/src/lib/Generator.cpp and the solvers that it keeps.
pub mod Container
pub mod Cover
pub mod Ready
pub mod Hits
pub mod CoverageGenerator
pub mod Analysis
pub mod Inactive
pub mod Default
pub mod Suggest
pub mod Picked
pub mod Construct
pub mod Rebuild
pub mod Covered
use Prim.Native.String.{String}
use crave.Prelude.{
  ℕ, zero, suc, List, [], ◌∷◌, Bool, true, false, Option, none, some, if◌then◌else◌,
}
use crave.Prelude.Result.{Result, ok, err, undefined, throw_if, ◌>>=◌, ◌>>◌}
use crave.Prelude.IntSet.{IntSet, insert}
use crave.Prelude.Random.{Random}
use mathlib.Core.Bool.{not}
use crave.Constraint.{UserConstraint}
use crave.Constraint.Partition.{ConstraintPartition}
use crave.Constraint.Partitioner.State.{
  ConstraintPartitioner, reset as reset_partitioner, merge_constraints, partition,
}
use crave.Constraint.Manager.{
  Heap, ConstraintManager, World, enable_constraint, disable_constraint, is_constraint_enabled,
  reset_changed,
}
use crave.Solver.MetaSmt.{Backend}
use crave.Generator.Container.{VariableContainer}
use crave.Generator.Cover.{CoverageSolver}
use crave.Generator.CoverageGenerator.{reset_coverage_solvers, read_from, solve_each}

-- What a generator uses of its `VariableGenerator` or `VariableGeneratorMT`, and of its
-- `VectorGenerator`: both are made anew by `reset`, and `solve` writes the program's memory. The
-- vectors read their sizes by the `read` of the generator for the variables.
pub record Engines (M Rng : Type 0) : Type 1 where
  pub VarGen : Type 0
  pub VecGen : Type 0
  pub reset_var : List ConstraintPartition → Result VarGen
  pub solve_var : VarGen → M → Rng → Result (Bool × VarGen × M × Rng)
  pub read_var : VarGen → ℕ → Option (Option String)
  pub reset_vec : List UserConstraint → Result VecGen
  pub solve_vec :
      (ℕ → Option (Option String)) → IntSet → VecGen → M → Rng → Result (Bool × VecGen × M × Rng)

-- the fields of `Generator`; the constraints that its manager points at are on a heap
pub record Generator (B : Backend) (M : Type 0) (R : Random (B.Expr)) (E : Engines M R.Rng)
    : Type 0 where
  pub constr_mng : ConstraintManager
  pub constr_pttn : ConstraintPartitioner
  pub to_be_generated_vec_ids : IntSet
  pub var_gen : E.VarGen
  pub var_cov_gen : List (CoverageSolver B M)
  pub vec_gen : E.VecGen
  pub covered : Bool

module _ (B : Backend) (M : Type 0) (R : Random (B.Expr)) (E : Engines M R.Rng) where
  abbrev pub Gen : Type 0
  Gen = Generator B M R E

  -- the generator with the memory and the source of chance that its solvers use
  abbrev pub Run : Type 0
  Run = Gen × M × R.Rng

  abbrev pub world_of : Heap → Gen → World
  world_of h g = record { heap = h; mng = g.constr_mng }

  -- `enableConstraint(name)`
  unfoldable pub enable : String → Heap → Gen → Bool × Heap × Gen
  enable name h g =
      let (b, w) = enable_constraint name (world_of h g) in
      (b, w.heap, record g { constr_mng = w.mng })

  -- `disableConstraint(name)`
  unfoldable pub disable : String → Heap → Gen → Bool × Heap × Gen
  disable name h g =
      let (b, w) = disable_constraint name (world_of h g) in
      (b, w.heap, record g { constr_mng = w.mng })

  -- `isConstraintEnabled(name)`
  unfoldable pub is_enabled : String → Heap → Gen → Bool
  is_enabled name h g = is_constraint_enabled name (world_of h g)

  -- `isChanged()`
  unfoldable pub is_changed : Gen → Bool
  is_changed g = g.constr_mng.changed

  -- `isCovered()`
  unfoldable pub is_covered : Gen → Bool
  is_covered g = g.covered

  -- `addVecId(id)`
  unfoldable pub add_vec_id : ℕ → Gen → Gen
  add_vec_id id g = record g { to_be_generated_vec_ids = insert id g.to_be_generated_vec_ids }

  -- `merge(other)`, of which only the manager is read
  unfoldable pub merge : Heap → ConstraintManager → Gen → Gen
  merge h mng g = record g {
    constr_pttn = merge_constraints (record { heap = h; mng = mng }) g.constr_pttn;
  }

  -- `*var_ctn_`, the variables of the program
  module _ (vcon : VariableContainer M) where
    -- `resetCoverage()`
    unfoldable pub reset_coverage : Gen → Result Gen
    reset_coverage g = do
      cov ← reset_coverage_solvers B M vcon g.constr_pttn.partitions
      ok (record g { covered = false; var_cov_gen = cov })

    -- `reset()`
    unfoldable pub reset : Heap → Gen → Result Gen
    reset h g = reset_coverage (record g {
      constr_mng = (reset_changed (world_of h g)).mng;
      constr_pttn = reset_partitioner g.constr_pttn;
      to_be_generated_vec_ids = [];
    })

    -- what `rebuild` does after `partition()`
    unfoldable pub reset_engines : ConstraintPartitioner → Gen → Result Gen
    reset_engines pttn g = do
      var ← E.reset_var pttn.partitions
      vec ← E.reset_vec pttn.vec_constraints
      cov ← reset_coverage_solvers B M vcon pttn.partitions
      ok (record g { constr_pttn = pttn; var_gen = var; vec_gen = vec; var_cov_gen = cov })

    -- `rebuild(selfInclude)`; `partition` never runs out of its fuel
    unfoldable pub rebuild : Bool → Heap → Gen → Result Gen
    rebuild self_include h g =
        let g1 = if self_include then merge h g.constr_mng g else g in
        elim (partition g1.constr_pttn) [ none ↦ err undefined | some p ↦ reset_engines p g1 ]

    -- the first statement of `next` and `nextCov`
    unfoldable pub refresh : Heap → Gen → Result Gen
    refresh h g = if is_changed g then (reset h g >>= λ g1. rebuild true h g1) else ok g

    -- `var_gen_->solve() && vec_gen_.solve(*var_gen_, ...)`
    unfoldable pub solve_values : Run → Result (Bool × Run)
    solve_values (g, m, r) = do
      (b, var, m1, r1) ← E.solve_var g.var_gen m r
      let g1 : Gen = record g { var_gen = var }
      elim b [
        | false ↦ ok (false, (g1, m1, r1))
        | true ↦ do
          (c, vec, m2, r2) ← E.solve_vec (E.read_var var) g.to_be_generated_vec_ids g.vec_gen m1 r1
          ok (c, (record g1 { vec_gen = vec }, m2, r2))
      ]

    -- `var_cov_gen_.solve() && vec_gen_.solve(var_cov_gen_, ...)`
    unfoldable pub solve_covers : Run → Result (Bool × Run)
    solve_covers (g, m, r) = do
      (b, cov, m1, r1) ← solve_each B M R g.var_cov_gen m r
      let g1 : Gen = record g { var_cov_gen = cov }
      elim b [
        | false ↦ ok (false, (g1, m1, r1))
        | true ↦ do
          (c, vec, m2, r2) ←
              E.solve_vec (read_from B M cov) g.to_be_generated_vec_ids g.vec_gen m1 r1
          ok (c, (record g1 { vec_gen = vec }, m2, r2))
      ]

    -- `next()`
    unfoldable pub next : Heap → Run → Result (Bool × Run)
    next h (g, m, r) = do g1 ← refresh h g; solve_values (g1, m, r)

    -- the `if (!covered_)` of `nextCov`, and `next()` behind it
    unfoldable pub try_covers : Heap → Run → Result (Bool × Run)
    try_covers h (g, m, r) =
        if is_covered g
        then next h (g, m, r)
        else (solve_covers (g, m, r) >>= λ (hit, (g1, m1, r1)). elim hit [
          | true ↦ ok (true, (g1, m1, r1))
          | false ↦ next h (record g1 { covered = true }, m1, r1)
        ])

    -- `nextCov()`
    unfoldable pub next_cov : Heap → Run → Result (Bool × Run)
    next_cov h (g, m, r) = do g1 ← refresh h g; try_covers h (g1, m, r)

    -- `operator()()`
    unfoldable pub call : Heap → Run → Result Run
    call h run = do
      (b, run1) ← next h run
      throw_if (not b) "Generator constraint unsatisfiable."
      ok run1
