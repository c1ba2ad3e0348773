-- ===== src/Generator/Rebuild.antt =====
-- What `next` and `nextCov` of crave/src/lib/Generator.cpp solve after a change, and what a failed `next`
-- ends in.
use mathlib.Core.Path.{subst}
use crave.Prelude.{◌≡◌, refl, sym, List, [], true, false}
use crave.Prelude.Result.{Result, ok, >>=-Returns}
use crave.Prelude.Random.{Random}
use crave.Constraint.Partitioner.Correct.{IsSplit}
use crave.Constraint.Partitioner.State.{
  ConstraintPartitioner, reset as reset_partitioner, enabled_of, partition-merge-reset,
}
use crave.Constraint.Manager.{Heap, World, reset_changed, deref}
use crave.Solver.MetaSmt.{Backend}
use crave.Generator.Container.{VariableContainer}
use crave.Generator.Cover.{CoverageSolver}
use crave.Generator.CoverageGenerator.{reset_coverage_solvers}
use crave.Generator.{
  Engines, Gen, world_of, is_changed, merge, reset_coverage, reset, reset_engines, rebuild, refresh,
}

module _ (B : Backend) (M : Type 0) (R : Random (B.Expr)) (E : Engines M R.Rng)
    (vcon : VariableContainer M) where
  -- A generator as the reset leaves it: no change, no vector ids and nothing covered.
  abbrev pub cleared : Heap → Gen B M R E → Gen B M R E
  cleared h g = record g {
    constr_mng = (reset_changed (world_of B M R E h g)).mng;
    constr_pttn = reset_partitioner g.constr_pttn;
    to_be_generated_vec_ids = [];
    var_cov_gen = [];
    covered = false;
  }

  -- The partitions of a manager alone.
  abbrev pub IsOwn : World → ConstraintPartitioner → Type 0
  IsOwn w p =
      (p.vec_constraints ≡ enabled_of true (deref w.heap w.mng.constraints))
      × IsSplit (enabled_of false (deref w.heap w.mng.constraints))
          (enabled_of false (deref w.heap w.mng.constraints)) p.partitions

  pub reset-cleared : (h : Heap) (g : Gen B M R E) → reset B M R E vcon h g ≡ ok (cleared h g)
  unfolding reset reset_coverage reset_partitioner reset_coverage_solvers
  reset-cleared h g = refl

  -- `rebuild` replaces the partitioner that `merge` changed.
  merged_away :
      (p : ConstraintPartitioner) (h : Heap) (g : Gen B M R E)
      → reset_engines B M R E vcon p (merge B M R E h g.constr_mng g)
        ≡ reset_engines B M R E vcon p g
  unfolding reset_engines merge
  merged_away p h g = refl

  -- The generators that the resets made of some partitions, in place of the old ones.
  abbrev pub with_engines :
      ConstraintPartitioner
      → E.VarGen
      → E.VecGen
      → List (CoverageSolver B M)
      → Gen B M R E
      → Gen B M R E
  with_engines p var vec cov g = record g {
    constr_pttn = p;
    var_gen = var;
    vec_gen = vec;
    var_cov_gen = cov;
  }

  -- The three resets of some partitions have these results.
  abbrev pub AreMade :
      ConstraintPartitioner → E.VarGen → E.VecGen → List (CoverageSolver B M) → Type 0
  AreMade p var vec cov =
      (E.reset_var p.partitions ≡ ok var)
      × (E.reset_vec p.vec_constraints ≡ ok vec)
      × (reset_coverage_solvers B M vcon p.partitions ≡ ok cov)

  -- A call that makes all solvers of a generator anew: it returns exactly if the three resets do, with
  -- their results in the generator.
  abbrev pub IsRemade : ConstraintPartitioner → Gen B M R E → Result (Gen B M R E) → Type 0
  IsRemade p g call =
      ((var : E.VarGen) (vec : E.VecGen) (cov : List (CoverageSolver B M))
        → AreMade p var vec cov
        → call ≡ ok (with_engines p var vec cov g))
      × ((g' : Gen B M R E)
          → call ≡ ok g'
          → (var : E.VarGen) × (vec : E.VecGen) × (cov : List (CoverageSolver B M)) × AreMade p var
              vec cov
            × (g' ≡ with_engines p var vec cov g))

  pub reset_engines-IsRemade :
      (p : ConstraintPartitioner) (g : Gen B M R E) → IsRemade p g (reset_engines B M R E vcon p g)
  unfolding reset_engines
  reset_engines-IsRemade p g = (
    (λ var vec cov (a, b, c). rw a (rw b (rw c refl))),
    (λ g' h.
        let (var, a, h1) = >>=-Returns (E.reset_var p.partitions) _ h in
        let (vec, b, h2) = >>=-Returns (E.reset_vec p.vec_constraints) _ h1 in
        let (cov, c, h3) = >>=-Returns (reset_coverage_solvers B M vcon p.partitions) _ h2 in
        (var, vec, cov, (a, b, c), cc)),
  )

  -- On a generator whose manager has changed, `next` and `nextCov` first make all solvers anew: the
  -- generators for variables, for vectors and for coverage are reset with partitions that split the
  -- manager's own enabled plain constraints and with its own enabled vector constraints, and replaced
  -- by the results. Whatever was merged from other generators and whatever vector ids were added is
  -- gone, the change is no longer noted and nothing is covered.
  pub refresh-IsOwn :
      (h : Heap) (g : Gen B M R E)
      → is_changed B M R E g ≡ true
      → (p : ConstraintPartitioner) × IsOwn (world_of B M R E h g) p
        × IsRemade p (cleared h g) (refresh B M R E vcon h g)
  unfolding refresh rebuild merge reset_changed
  refresh-IsOwn h g c =
      let w = world_of B M R E h (cleared h g) in
      let (p, e, v, _, s) = partition-merge-reset w g.constr_pttn in
      let same : refresh B M R E vcon h g ≡ reset_engines B M R E vcon p (cleared h g) =
        rw (refresh, c)
          (rw (reset-cleared h g) (rw (rebuild, e) (merged_away p h (cleared h g)))) in
      (
        p,
        (v, s),
        subst (IsRemade p (cleared h g)) (sym same) (reset_engines-IsRemade p (cleared h g)),
      )
