-- ===== src/Tests/Engines.antt =====
-- The theorem on coverage, at a generator whose other variables have the default solver, and whose vectors
-- have the solvers of the vector generator; the program has no vector.
use crave.Prelude.{ℕ, ◌≡◌, refl, [], ◌∷◌, Bool, true, false, List, Option, some, none}
use Prim.Native.String.{String}
use crave.Prelude.Result.{Result, ok}
use crave.Prelude.IntSet.{IntSet}
use crave.Constraint.Partition.{ConstraintPartition}
use crave.Constraint.Manager.{new_manager}
use crave.Solver.Problem.{read}
use crave.VectorGenerator.{VectorSolverMap, reset_vectors}
use crave.VectorGenerator.Build.{Vectors, solve_vectors, solve_solvers, generate_others}
use crave.Generator.{Engines, Gen, is_changed, is_covered}
use crave.Generator.Default.{DefaultSolver, has_contradictions, solve_default}
use crave.Generator.Construct.{new_default_solver}
use crave.Generator.Picked.{IsPosed, solve_default-IsPicked}
use crave.Generator.Covered.{repeat_next_cov, IsTotal, IsSettled, repeat_next_cov-covered}
use crave.Tests.Solvers.{tables, tables-IsIncremental, counting, counting-IsRandom}
use crave.Tests.Generators.{
  variables, heap, generator, cover_solver, cover_solver-IsReady, few_left,
}
use crave.Tests.Defaults.{
  chance, chance-IsRandom, values, values-translatable, default_solver, default_solver-IsPosed,
  one_bit,
}

abbrev Default : Type 0
Default = DefaultSolver tables tables Bool

abbrev no_vectors : Vectors Bool ℕ
no_vectors = record {
  size_var = λ v. none;
  new_var_id = λ m. (0, m);
  set_values = λ v texts m. m;
  gen_values = λ v n m r. (m, r);
  to_unsigned = λ s r. (0, r);
}

-- the default solver of the first partition
abbrev reset_default : List ConstraintPartition → Result Default
reset_default [] = ok default_solver
reset_default (p ∷ ps) = new_default_solver tables tables Bool false true one_bit p

abbrev real : Engines Bool ℕ
real = record {
  VarGen = Default;
  VecGen = VectorSolverMap;
  reset_var = reset_default;
  solve_var = λ v m r. solve_default tables tables Bool chance values v m r;
  read_var = λ v k. some (read tables k (v.problem));
  reset_vec = reset_vectors;
  solve_vec = λ f ids v m r. solve_vectors tables Bool counting no_vectors f ids v m r;
}

abbrev IsFit : IntSet → Default → VectorSolverMap → Type 0
IsFit ids v w =
    (ids ≡ [])
    × (w ≡ [])
    × IsPosed tables tables-IsIncremental tables Bool chance values values-translatable
        tables-IsIncremental chance-IsRandom v
    × (has_contradictions tables tables Bool chance values v ≡ false)

abbrev HasSizes : (ℕ → Option (Option String)) → IntSet → VectorSolverMap → Type 0
HasSizes f ids w = (ids ≡ []) × (w ≡ [])

without_vectors :
    (f : ℕ → Option (Option String)) (m : Bool) (r : ℕ)
    → solve_vectors tables Bool counting no_vectors f [] [] m r ≡ ok (true, [], m, r)
unfolding solve_vectors solve_solvers generate_others
without_vectors f m r = refl

solved_vectors :
    (f : ℕ → Option (Option String)) (ids : IntSet) (w : VectorSolverMap) (m : Bool) (r : ℕ)
    → HasSizes f ids w
    → solve_vectors tables Bool counting no_vectors f ids w m r ≡ ok (true, [], m, r)
solved_vectors f ids w m r (i, j) = rw i (rw j (without_vectors f m r))

real-IsTotal :
    IsTotal tables Bool counting real variables tables-IsIncremental counting-IsRandom IsFit
      HasSizes
real-IsTotal = (
  (λ ids v w m r (i, j, p, n).
      let (b, t, m1, r1, _, e, _, _, _, q, k) =
        solve_default-IsPicked tables tables-IsIncremental tables Bool chance values
          values-translatable tables-IsIncremental chance-IsRandom chance-IsRandom v m r n p in
      ((b, t, m1, r1), e, ((i, j, q, k), (λ y. (i, j))))),
  (λ ids v w cs ds m m1 r r1 (i, j, p, n) ready e. (i, j)),
  (λ f ids v w m r (i, j, p, n) sizes.
      ((true, [], m, r), solved_vectors f ids w m r (i, j), (i, refl, p, n))),
)

abbrev real_generator : Gen tables Bool counting real
real_generator = record {
  constr_mng = new_manager 1;
  constr_pttn = generator.constr_pttn;
  to_be_generated_vec_ids = [];
  var_gen = default_solver;
  var_cov_gen = cover_solver ∷ [];
  vec_gen = [];
  covered = false;
}

real_generator-IsFit : IsFit [] default_solver []
unfolding has_contradictions
real_generator-IsFit = (refl, refl, default_solver-IsPosed, refl)

real_generator-IsSettled :
    IsSettled tables Bool counting real variables tables-IsIncremental counting-IsRandom
      real_generator
unfolding is_changed new_manager
real_generator-IsSettled = (refl, (cover_solver-IsReady, tt))

repeat_next_cov-covered_example :
    (g : Gen tables Bool counting real) × (m : Bool) × (r : ℕ) × (repeat_next_cov tables Bool
        counting real variables 3 heap
        (real_generator, false, 0)
      ≡ ok (g, m, r))
    × (is_covered tables Bool counting real g ≡ true)
repeat_next_cov-covered_example =
    repeat_next_cov-covered tables Bool counting real variables tables-IsIncremental
      counting-IsRandom IsFit HasSizes 3 heap real_generator false 0 real-IsTotal
      real_generator-IsFit real_generator-IsSettled few_left
