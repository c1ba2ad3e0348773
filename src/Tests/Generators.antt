-- ===== src/Tests/Generators.antt =====
-- The theorems on generators, at one with the cover constraints that the variable 4 holds and that it
-- does not, and where the other solvers always find a solution.
use crave.Prelude.{ℕ, ◌<◌, ◌≡◌, refl, List, [], ◌∷◌, Bool, true, false, none, arith}
use crave.Prelude.Result.{ok}
use crave.Ir.{variable_expr}
use crave.Ir.Eval.Direct.{is_filled}
use crave.Constraint.{UserConstraint}
use crave.Constraint.Partition.{ConstraintPartition, empty_partition}
use crave.Constraint.Partitioner.State.{ConstraintPartitioner}
use crave.Constraint.Manager.{Heap, new_manager, new_constraint}
use crave.Solver.Problem.{Problem, new_problem}
use crave.Solver.Translation.{is_scalar}
use crave.Generator.Container.{VariableContainer}
use crave.Generator.Cover.{CoverageSolver, is_named}
use crave.Generator.Hits.{uncovered, IsReady}
use crave.Generator.CoverageGenerator.{total_left, solve_each, IsStep, solve_each-IsStep}
use crave.Generator.{Engines, Gen, is_changed, refresh, world_of}
use crave.Generator.Rebuild.{cleared, IsOwn, IsRemade, refresh-IsOwn}
use crave.Tests.Solvers.{tables, tables-IsIncremental, counting, counting-IsRandom, negated}

-- A program with one Boolean.
abbrev pub variables : VariableContainer Bool
variables = record {
  variables = λ v. true;
  read_references = [];
  write_references = (4, λ s m. true) ∷ [];
  dist_references = [];
  dist_ref_to_var_map = λ v. none;
}

abbrev pub holds_cover : UserConstraint
holds_cover = new_constraint "holds" 1 (variable_expr 4 1 true) false true 0

abbrev pub negated_cover : UserConstraint
negated_cover = new_constraint "negated" 2 negated false true 0

abbrev pub covers : ConstraintPartition
covers = record empty_partition { constraints = negated_cover ∷ holds_cover ∷ [] }

abbrev pub cover_solver : CoverageSolver tables Bool
cover_solver = record {
  var_ctn = variables;
  constr_pttn = covers;
  problem = new_problem tables;
  covered_set = [];
}

pub cover_solver-IsReady :
    IsReady tables tables-IsIncremental Bool counting counting-IsRandom cover_solver
unfolding is_filled is_scalar new_constraint
cover_solver-IsReady = (refl, tt, ((refl, refl), ((refl, refl), tt)))

abbrev pub always : Engines Bool ℕ
always = record {
  VarGen = Unit {0};
  VecGen = Unit {0};
  reset_var = λ ps. ok tt;
  solve_var = λ v m r. ok (true, tt, m, r);
  read_var = λ v k. none;
  reset_vec = λ cs. ok tt;
  solve_vec = λ f ids v m r. ok (true, tt, m, r);
}

abbrev pub generator : Gen tables Bool counting always
generator = record {
  constr_mng = new_manager 1;
  constr_pttn = record {
    constr_mngs = [];
    constraints = [];
    partitions = [];
    vec_constraints = [];
  };
  to_be_generated_vec_ids = [];
  var_gen = tt;
  var_cov_gen = cover_solver ∷ [];
  vec_gen = tt;
  covered = false;
}

abbrev pub heap : Heap
heap = record { next = 0; cell = λ p. holds_cover }

solve_each-IsStep_example :
    (b : Bool) × (ts : List (CoverageSolver tables Bool)) × (m : Bool) × (r : ℕ) × (solve_each
        tables Bool counting
        (cover_solver ∷ [])
        false
        0
      ≡ ok (b, ts, m, r))
    × IsStep tables Bool counting tables-IsIncremental counting-IsRandom (cover_solver ∷ []) b ts
solve_each-IsStep_example =
    solve_each-IsStep tables Bool counting tables-IsIncremental counting-IsRandom
      (cover_solver ∷ []) false 0 (cover_solver-IsReady, tt)

pub few_left :
    total_left tables Bool counting tables-IsIncremental counting-IsRandom (cover_solver ∷ []) < 3
unfolding total_left uncovered is_named new_constraint
few_left = omega arith

-- The same generator after a change of its manager.
abbrev changed_generator : Gen tables Bool counting always
changed_generator = record generator { constr_mng = record (new_manager 1) { changed = true } }

was_changed : is_changed tables Bool counting always changed_generator ≡ true
unfolding is_changed new_manager
was_changed = refl

refresh-IsOwn_example :
    (p : ConstraintPartitioner) × IsOwn tables Bool counting always variables
      (world_of tables Bool counting always heap changed_generator)
      p
    × IsRemade tables Bool counting always variables p
        (cleared tables Bool counting always variables heap changed_generator)
        (refresh tables Bool counting always variables heap changed_generator)
refresh-IsOwn_example =
    refresh-IsOwn tables Bool counting always variables heap changed_generator was_changed

-- The variable 4 as a hard constraint, its negation and it again as soft ones.
abbrev hard_constraint : UserConstraint
hard_constraint = new_constraint "hard" 3 (variable_expr 4 1 true) false false 0

abbrev first_soft : UserConstraint
first_soft = new_constraint "first" 4 negated true false 0

abbrev second_soft : UserConstraint
second_soft = new_constraint "second" 5 (variable_expr 4 1 true) true false 0

abbrev posable : List UserConstraint
posable = hard_constraint ∷ first_soft ∷ second_soft ∷ []
