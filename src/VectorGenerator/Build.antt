-- ===== src/VectorGenerator/Build.antt =====
-- crave/src/lib/VectorGenerator.cpp: the problem that the solver of a vector poses for a size, its
-- solution, and the solution of all vectors.
use Prim.Native.String.{String}
use crave.Prelude.{
  ℕ, zero, suc, ◌-◌, List, [], ◌∷◌, ◌++◌, map, Bool, true, false, Option, none, some, ◌==◌, length,
  if◌then◌else◌,
}
use crave.Prelude.Result.{Result, ok, err, undefined, ◌>>=◌}
use crave.Prelude.IntSet.{IntSet}
use crave.Prelude.Random.{Random}
use crave.Ir.{Node, binary, not_equal_opr}
use crave.Ir.Replace.{Element, element_node, Visitor, start_at, visit}
use crave.Constraint.{UserConstraint, is_unique}
use crave.Solver.MetaSmt.{Backend}
use crave.Solver.Problem.{
  Problem, new_problem, make_assertion, make_soft_assertion, solve, read_vector,
}
use crave.VectorGenerator.{VectorSolver, VectorSolverMap, find}

-- `default_rand_vec_size()`
abbrev pub default_rand_vec_size : ℕ
default_rand_vec_size = 5

-- What the solvers use of the program's vectors, which `vectorBaseMap` holds by id, of the counter of
-- `new_var_id` and of the conversion of a value that is read.
pub record Vectors (M Rng : Type 0) : Type 0 where
  -- the id of `vector->size_var()`; nothing for an id without a vector
  pub size_var : ℕ → Option ℕ
  pub new_var_id : M → ℕ × M
  pub set_values : ℕ → List String → M → M
  pub gen_values : ℕ → ℕ → M → Rng → M × Rng
  -- `AssignResultToRef<unsigned>::set_value`
  pub to_unsigned : String → Rng → ℕ × Rng

-- The first elements of a vector.
unfoldable pub take {ℓ} : {A : Type ℓ} → ℕ → List A → List A
take zero xs = []
take (suc k) [] = []
take (suc k) (x ∷ xs) = x ∷ take k xs

module _ {M : Type 0} (new_var_id : M → ℕ × M) where
  -- the loop that makes a number of elements
  unfoldable pub new_elements : ℕ → M → List Element × M
  new_elements zero m = ([], m)
  new_elements (suc k) m =
      let (id, m1) = new_var_id m in
      let (es, m2) = new_elements k m1 in (record { id = id; bitsize = 1; sign = true } ∷ es, m2)

  -- the first statement of `buildSolver(size)`
  unfoldable pub resize : ℕ → List Element → M → List Element × M
  resize size es m =
      if length es == size
      then (es, m)
      else (let (more, m1) = new_elements (size - length es) m in (take size es ++ more, m1))

module _ (B : Backend) where
  -- `makeSoftAssertion` or `makeAssertion`
  unfoldable pub pose : Bool → Node → Problem B → Result (Problem B)
  pose soft n p = if soft then make_soft_assertion B n p else make_assertion B n p

  -- what follows the visit: the result is posed if the visitor is okay
  unfoldable pub pose_result : Bool → Visitor → Problem B → Result (Problem B)
  pose_result soft t p =
      if t.memory.okay
      then elim (t.last) [ none ↦ err undefined | some n ↦ pose soft n p ]
      else ok p

  -- the loop over the indices of a constraint that is not unique, from `i` on
  unfoldable pub each_index :
      ℕ → ℕ → UserConstraint → List Element → Problem B → Result (List Element × Problem B)
  each_index zero i c es p = ok (es, p)
  each_index (suc k) i c es p = do
    t ← visit c.expr (start_at es i)
    q ← pose_result c.soft t p
    each_index k (suc i) c t.memory.variables q

  -- the inner loop of a unique constraint
  unfoldable pub differ_from : Bool → Element → List Element → Problem B → Result (Problem B)
  differ_from soft e [] p = ok p
  differ_from soft e (f ∷ fs) p = do
    q ← pose soft (binary not_equal_opr (element_node e) (element_node f)) p
    differ_from soft e fs q

  -- the outer loop
  unfoldable pub all_differ : Bool → List Element → Problem B → Result (Problem B)
  all_differ soft [] p = ok p
  all_differ soft (e ∷ es) p = do q ← differ_from soft e es p; all_differ soft es q

  -- the body of the loop over the constraints
  unfoldable pub build_constraint :
      ℕ → UserConstraint → List Element → Problem B → Result (List Element × Problem B)
  build_constraint size c es p =
      if is_unique c then (all_differ c.soft es p >>= λ q. ok (es, q)) else each_index size 0 c es p

  unfoldable pub build_constraints :
      ℕ → List UserConstraint → List Element → Problem B → Result (List Element × Problem B)
  build_constraints size [] es p = ok (es, p)
  build_constraints size (c ∷ cs) es p = do
    (fs, q) ← build_constraint size c es p
    build_constraints size cs fs q

  module _ (R : Random (B.Expr)) where
    -- `solver_->solve(false) || solver_->solve(true)`
    unfoldable pub solve_either : Problem B → R.Rng → Result (Bool × Problem B × R.Rng)
    solve_either p r = do
      (b, q, r1) ← solve B R false p r
      elim b [ true ↦ ok (true, q, r1) | false ↦ solve B R true q r1 ]

  module _ (M : Type 0) (R : Random (B.Expr)) (V : Vectors M (R.Rng)) where
    -- the size of a vector as `solve` reads it, or the default size
    unfoldable pub read_size : (ℕ → Option (Option String)) → ℕ → R.Rng → Result (ℕ × R.Rng)
    read_size read v r = elim (V.size_var v) [
      | none ↦ err undefined
      | some k ↦ elim (read k) [
        | some (some s) ↦ ok (V.to_unsigned s r)
        | _ ↦ ok (default_rand_vec_size, r)
      ]
    ]

    -- `resetSolver(size)`, with `buildSolver(size)`: the problem, the elements and the memory
    unfoldable pub reset_solver : ℕ → VectorSolver → M → Result (Problem B × VectorSolver × M)
    reset_solver size s m = do
      let (es, m1) = resize V.new_var_id size s.vec_elements m
      (fs, p) ← build_constraints size s.constraints es (new_problem B)
      ok (p, record s { vec_elements = fs }, m1)

    -- `solver_->readVector(vec_elements_, vector)`, whose result is not looked at
    unfoldable pub write_vector : VectorSolver → Problem B → M → M
    write_vector s p m = elim (read_vector B (map (λ e. e.id) s.vec_elements) p) [
      | none ↦ m
      | some values ↦ V.set_values (s.vector_id) values m
    ]

    -- `VectorSolver::solve(var_gen)`
    unfoldable pub solve_vector :
        (ℕ → Option (Option String))
        → VectorSolver
        → M
        → R.Rng
        → Result (Bool × VectorSolver × M × R.Rng)
    solve_vector read s m r = do
      (size, r1) ← read_size read s.vector_id r
      (p, t, m1) ← reset_solver size s m
      (b, q, r2) ← solve_either R p r1
      ok (b, t, (if b then write_vector t q m1 else m1), r2)

    -- the first loop of `VectorGenerator::solve`
    unfoldable pub solve_solvers :
        (ℕ → Option (Option String))
        → VectorSolverMap
        → M
        → R.Rng
        → Result (Bool × VectorSolverMap × M × R.Rng)
    solve_solvers read [] m r = ok (true, [], m, r)
    solve_solvers read ((k, s) ∷ ss) m r = do
      (b, t, m1, r1) ← solve_vector read s m r
      elim b [
        | false ↦ ok (false, (k, t) ∷ ss, m1, r1)
        | true ↦ do (c, ts, m2, r2) ← solve_solvers read ss m1 r1; ok (c, (k, t) ∷ ts, m2, r2)
      ]

    -- the second one, over the vectors without a constraint
    unfoldable pub generate_others :
        (ℕ → Option (Option String)) → IntSet → VectorSolverMap → M → R.Rng → Result (M × R.Rng)
    generate_others read [] ss m r = ok (m, r)
    generate_others read (v ∷ vs) ss m r = elim (find v ss) [
      | some s ↦ generate_others read vs ss m r
      | none ↦ do
        (size, r1) ← read_size read v r
        let (m1, r2) = V.gen_values v size m r1
        generate_others read vs ss m1 r2
    ]

    -- `VectorGenerator::solve(var_gen, vec_ids)`
    unfoldable pub solve_vectors :
        (ℕ → Option (Option String))
        → IntSet
        → VectorSolverMap
        → M
        → R.Rng
        → Result (Bool × VectorSolverMap × M × R.Rng)
    solve_vectors read ids ss m r = do
      (b, ts, m1, r1) ← solve_solvers read ss m r
      elim b [
        | false ↦ ok (false, ts, m1, r1)
        | true ↦ do (m2, r2) ← generate_others read ids ts m1 r1; ok (true, ts, m2, r2)
      ]
