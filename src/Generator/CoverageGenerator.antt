-- ===== src/Generator/CoverageGenerator.antt =====
-- crave/src/lib/VariableCoverageGenerator.cpp, and `read` of crave/src/crave/backend/VariableSolver.hpp and
-- VariableGeneratorType.hpp: the solvers for the cover constraints, one for each partition.
use Prim.Native.String.{String}
use crave.Prelude.{
  ℕ, ◌+◌, ◌<◌, ◌≡◌, refl, List, [], ◌∷◌, Bool, true, false, ◌||◌, Option, none, some, if◌then◌else◌,
  arith, All,
}
use crave.Prelude.Result.{Result, ok, ◌>>=◌}
use crave.Prelude.Random.{Random, IsRandom}
use crave.Constraint.Partition.{ConstraintPartition}
use crave.Solver.MetaSmt.{Backend, IsIncremental}
use crave.Solver.Problem.{read}
use crave.Generator.Container.{VariableContainer}
use crave.Generator.Cover.{CoverageSolver, new_coverage_solver, solve_coverage}
use crave.Generator.Hits.{IsReady, left_of, solve_coverage-IsProgress, progress-left}

module _ (B : Backend) (M : Type 0) where
  -- `reset(partitions)`
  unfoldable pub reset_coverage_solvers :
      VariableContainer M → List ConstraintPartition → Result (List (CoverageSolver B M))
  reset_coverage_solvers vcon [] = ok []
  reset_coverage_solvers vcon (cp ∷ cps) = do
    s ← new_coverage_solver B M vcon cp
    ss ← reset_coverage_solvers vcon cps
    ok (s ∷ ss)

  -- `read(var, value)` over the solvers: nothing if none of them has the variable, else what the
  -- first one that has it reads, which may leave the value as it was
  unfoldable pub read_from : List (CoverageSolver B M) → ℕ → Option (Option String)
  read_from [] v = none
  read_from (s ∷ ss) v =
      let rest = read_from ss v in if s.var_ctn.variables v then some (read B v s.problem) else rest

  module _ (R : Random (B.Expr)) where
    -- `solve()`: all of them, and whether one has hit a constraint
    unfoldable pub solve_each :
        List (CoverageSolver B M)
        → M
        → R.Rng
        → Result (Bool × List (CoverageSolver B M) × M × R.Rng)
    solve_each [] m r = ok (false, [], m, r)
    solve_each (s ∷ ss) m r = do
      (b, (t, m1, r1)) ← solve_coverage B M R (s, m, r)
      (b', ts, m2, r2) ← solve_each ss m1 r1
      ok (b || b', t ∷ ts, m2, r2)

    module _ (I : IsIncremental B) (L : IsRandom R) where
      -- The cover constraints that no solver has hit.
      unfoldable pub total_left : List (CoverageSolver B M) → ℕ
      total_left [] = 0
      total_left (s ∷ ss) = left_of B I M R L s + total_left ss

      abbrev pub IsStep : List (CoverageSolver B M) → Bool → List (CoverageSolver B M) → Type 0
      IsStep ss b ts =
          All (IsReady B I M R L) ts
          × (b ≡ true → total_left ts < total_left ss)
          × (b ≡ false → total_left ts ≡ total_left ss)

      combined :
          (s t : CoverageSolver B M) (ss ts : List (CoverageSolver B M)) (b c : Bool)
          → IsReady B I M R L t
          → ((b ≡ true → left_of B I M R L t < left_of B I M R L s)
              × (b ≡ false → left_of B I M R L t ≡ left_of B I M R L s))
          → IsStep ss c ts
          → IsStep (s ∷ ss) (b || c) (t ∷ ts)
      unfolding total_left
      combined s t ss ts true true r (p, q) (rs, u, v) =
          ((r, rs), (λ h. omega (arith, p refl, u refl)), (λ h. cc))
      combined s t ss ts true false r (p, q) (rs, u, v) =
          ((r, rs), (λ h. omega (arith, p refl, v refl)), (λ h. cc))
      combined s t ss ts false true r (p, q) (rs, u, v) =
          ((r, rs), (λ h. omega (arith, q refl, u refl)), (λ h. cc))
      combined s t ss ts false false r (p, q) (rs, u, v) =
          ((r, rs), (λ h. cc), (λ h. omega (arith, q refl, v refl)))

      -- For ready solvers, `solve` returns ready solvers: with fewer cover constraints left to hit if
      -- it answers true, and as many as before if it answers false.
      pub solve_each-IsStep :
          (ss : List (CoverageSolver B M)) (m : M) (r : R.Rng)
          → All (IsReady B I M R L) ss
          → (b : Bool) × (ts : List (CoverageSolver B M)) × (m' : M) × (r' : R.Rng) × (solve_each ss
                m r
              ≡ ok (b, ts, m', r'))
            × IsStep ss b ts
      unfolding solve_each
      solve_each-IsStep [] m r h = (false, [], m, r, refl, (tt, (λ i. cc), (λ i. refl)))
      solve_each-IsStep (s ∷ ss) m r h =
          let (b, (t, m1, r1), e, p) = solve_coverage-IsProgress B I M R L s m r h.0 in
          let (c, ts, m2, r2, d, q) = solve_each-IsStep ss m1 r1 h.1 in
          (
            b || c,
            t ∷ ts,
            m2,
            r2,
            rw e (rw d refl),
            combined s t ss ts b c p.0 (progress-left B I M R L s t b p) q,
          )
