-- ===== src/Generator/Covered.antt =====
-- The end of coverage in crave/src/lib/Generator.cpp: how often `nextCov` can hit a cover constraint
-- before `isCovered` is true.
use Prim.Native.String.{String}
use crave.Prelude.IntSet.{IntSet}
use crave.Prelude.{
  List, Option, ℕ, zero, suc, ◌-◌, ◌≤◌, ◌<◌, ◌≡◌, refl, sym, ◌∙◌, Bool, true, false, arith, ap,
  if◌then◌else◌, All, Bool-cases, inl, inr,
}
use mathlib.Core.Path.{subst}
use crave.Prelude.Result.{Result, ok, Returns, ◌>>=◌}
use crave.Prelude.Random.{Random, IsRandom}
use crave.Constraint.Manager.{Heap}
use crave.Solver.MetaSmt.{Backend, IsIncremental}
use crave.Generator.Container.{VariableContainer}
use crave.Generator.Hits.{IsReady}
use crave.Generator.Cover.{CoverageSolver}
use crave.Generator.CoverageGenerator.{read_from, solve_each, total_left, solve_each-IsStep}
use crave.Generator.{
  Engines, Gen, Run, is_changed, is_covered, refresh, solve_values, solve_covers, next, try_covers,
  next_cov,
}

module _ (B : Backend) (M : Type 0) (R : Random (B.Expr)) (E : Engines M R.Rng)
    (vcon : VariableContainer M) where
  -- `nextCov()` a number of times, whatever it answers
  unfoldable pub repeat_next_cov : ℕ → Heap → Run B M R E → Result (Run B M R E)
  repeat_next_cov zero h run = ok run
  repeat_next_cov (suc n) h run = do
    (b, run1) ← next_cov B M R E vcon h run
    repeat_next_cov n h run1

  module _ (I : IsIncremental B) (L : IsRandom R) where
    -- How many more calls may hit: none once everything is covered.
    unfoldable pub rank : Gen B M R E → ℕ
    rank g = if is_covered B M R E g then 0 else suc (total_left B M R I L g.var_cov_gen)

    -- Nothing has changed since the last rebuild, and the cover constraints can be posed.
    abbrev pub IsSettled : Gen B M R E → Type 0
    IsSettled g = (is_changed B M R E g ≡ false) × All (IsReady B I M R L) g.var_cov_gen

    -- A step of the coverage: a lower rank, or none.
    abbrev IsLower : Gen B M R E → Gen B M R E → Type 0
    IsLower g g' = IsSettled g' × (rank g' ≤ rank g - 1)

    settled :
        (g g' : Gen B M R E)
        → g'.constr_mng ≡ g.constr_mng
        → g'.var_cov_gen ≡ g.var_cov_gen
        → IsSettled g
        → IsSettled g'
    unfolding is_changed
    settled g g' k l (u, ready) =
        (ap (λ mng. mng.changed) k ∙ u, subst (All (IsReady B I M R L)) (sym l) ready)

    covered_as :
        (g g' : Gen B M R E) (b : Bool)
        → g'.covered ≡ g.covered
        → is_covered B M R E g ≡ b
        → is_covered B M R E g' ≡ b
    unfolding is_covered
    covered_as g g' b e h = e ∙ h

    covered_now : (g : Gen B M R E) → is_covered B M R E (record g { covered = true }) ≡ true
    unfolding is_covered
    covered_now g = refl

    rank_covered : (g g' : Gen B M R E) → is_covered B M R E g' ≡ true → rank g' ≤ rank g - 1
    unfolding rank
    rank_covered g g' h = rw (rank, h) (omega arith)

    rank_lower :
        (g g' : Gen B M R E)
        → is_covered B M R E g ≡ false
        → is_covered B M R E g' ≡ false
        → total_left B M R I L g'.var_cov_gen < total_left B M R I L g.var_cov_gen
        → rank g' ≤ rank g - 1
    unfolding rank
    rank_lower g g' f f' h = ground arith

    -- `IsFit` is an invariant of the generators for variables and for vectors and of the vector ids,
    -- and `HasSizes` says that the sizes of the vectors can be read.
    module _ (IsFit : IntSet → E.VarGen → E.VecGen → Type 0)
        (HasSizes : (ℕ → Option (Option String)) → IntSet → E.VecGen → Type 0) where
      abbrev pub IsFitGen : Gen B M R E → Type 0
      IsFitGen g = IsFit g.to_be_generated_vec_ids g.var_gen g.vec_gen

      -- The calls of `solve` on the generators for variables and for vectors return where the invariant
      -- holds, and keep it: the one for vectors if the sizes can be read from the generator that it is
      -- given; and they can after a solution for the variables or for a cover constraint.
      abbrev pub IsTotal : Type 0
      IsTotal =
          ((ids : IntSet) (v : E.VarGen) (w : E.VecGen) (m : M) (r : R.Rng)
            → IsFit ids v w
            → Returns (E.solve_var v m r)
                (λ x. IsFit ids x.1 w × (x.0 ≡ true → HasSizes (E.read_var x.1) ids w)))
          × ((ids : IntSet) (v : E.VarGen) (w : E.VecGen) (cs ds : List (CoverageSolver B M))
                (m m1 : M) (r r1 : R.Rng)
              → IsFit ids v w
              → All (IsReady B I M R L) cs
              → solve_each B M R cs m r ≡ ok (true, ds, m1, r1)
              → HasSizes (read_from B M ds) ids w)
          × ((f : ℕ → Option (Option String)) (ids : IntSet) (v : E.VarGen) (w : E.VecGen) (m : M)
                (r : R.Rng)
              → IsFit ids v w
              → HasSizes f ids w
              → Returns (E.solve_vec f ids w m r) (λ x. IsFit ids v x.1))

      -- What `next` leaves as it is.
      abbrev IsKept : Gen B M R E → Gen B M R E → Type 0
      IsKept g g' =
          (g'.constr_mng ≡ g.constr_mng)
          × (g'.var_cov_gen ≡ g.var_cov_gen)
          × (g'.covered ≡ g.covered)
          × IsFitGen g'

      solve_values-IsKept :
          (g : Gen B M R E) (m : M) (r : R.Rng)
          → IsTotal
          → IsFitGen g
          → (b : Bool) × (g' : Gen B M R E) × (m' : M) × (r' : R.Rng) × (solve_values B M R E vcon
                (g, m, r)
              ≡ ok (b, (g', m', r')))
            × IsKept g g'
      unfolding solve_values
      solve_values-IsKept g m r (var, _, vec) fit =
          let ids = g.to_be_generated_vec_ids in
          let ((b, v, m1, r1), e, (fit1, sizes)) = var ids g.var_gen g.vec_gen m r fit in
          elim (Bool-cases b) [
            | inr f ↦ (
              false,
              record g { var_gen = v },
              m1,
              r1,
              rw e (rw f refl),
              (refl, refl, refl, fit1),
            )
            | inl t ↦
                let ((c, w, m2, r2), d, fit2) =
                  vec (E.read_var v) ids v g.vec_gen m1 r1 fit1 (sizes t) in
                (
                  c,
                  record g { var_gen = v; vec_gen = w },
                  m2,
                  r2,
                  rw e (rw t (rw d refl)),
                  (refl, refl, refl, fit2),
                )
          ]

      next-IsKept :
          (h : Heap) (g : Gen B M R E) (m : M) (r : R.Rng)
          → IsTotal
          → IsFitGen g
          → is_changed B M R E g ≡ false
          → (b : Bool) × (g' : Gen B M R E) × (m' : M) × (r' : R.Rng) × (next B M R E vcon h
                (g, m, r)
              ≡ ok (b, (g', m', r')))
            × IsKept g g'
      unfolding next refresh
      next-IsKept h g m r total fit u =
          let (b, g', m', r', e, k) = solve_values-IsKept g m r total fit in
          (b, g', m', r', rw (refresh, u) e, k)

      solve_covers-step :
          (g : Gen B M R E) (m : M) (r : R.Rng)
          → IsTotal
          → IsFitGen g
          → IsSettled g
          → (b : Bool) × (g' : Gen B M R E) × (m' : M) × (r' : R.Rng) × (solve_covers B M R E vcon
                (g, m, r)
              ≡ ok (b, (g', m', r')))
            × IsSettled g'
            × IsFitGen g'
            × (g'.covered ≡ g.covered)
            × (b ≡ true → total_left B M R I L g'.var_cov_gen < total_left B M R I L g.var_cov_gen)
      unfolding solve_covers is_changed
      solve_covers-step g m r (_, cov_sizes, vec) fit (u, ready) =
          let ids = g.to_be_generated_vec_ids in
          let (b, cov, m1, r1, e, (ready', less, _)) =
            solve_each-IsStep B M R I L g.var_cov_gen m r ready in
          elim (Bool-cases b) [
            | inr f ↦ (
              false,
              record g { var_cov_gen = cov },
              m1,
              r1,
              rw e (rw f refl),
              (u, ready'),
              fit,
              refl,
              (λ i. cc),
            )
            | inl t ↦
                let sizes : HasSizes (read_from B M cov) ids g.vec_gen =
                  cov_sizes ids g.var_gen g.vec_gen g.var_cov_gen cov m m1 r r1 fit ready
                    (rw e (rw t refl)) in
                let ((c, w, m2, r2), d, fit1) =
                  vec (read_from B M cov) ids g.var_gen g.vec_gen m1 r1 fit sizes in
                (
                  c,
                  record g { var_cov_gen = cov; vec_gen = w },
                  m2,
                  r2,
                  rw e (rw t (rw d refl)),
                  (u, ready'),
                  fit1,
                  refl,
                  (λ i. less t),
                )
          ]

      next_cov-IsLower :
          (h : Heap) (g : Gen B M R E) (m : M) (r : R.Rng)
          → IsTotal
          → IsFitGen g
          → IsSettled g
          → (b : Bool) × (g' : Gen B M R E) × (m' : M) × (r' : R.Rng) × (next_cov B M R E vcon h
                (g, m, r)
              ≡ ok (b, (g', m', r')))
            × IsLower g g'
            × IsFitGen g'
      unfolding next_cov refresh try_covers
      next_cov-IsLower h g m r total fit (u, ready) = elim (Bool-cases (is_covered B M R E g)) [
        | inl c ↦
            let (b, g', m', r', e, (k, l, n, fit1)) = next-IsKept h g m r total fit u in
            (
              b,
              g',
              m',
              r',
              rw (refresh, u) (rw (try_covers, c) e),
              (settled g g' k l (u, ready), rank_covered g g' (covered_as g g' true n c)),
              fit1,
            )
        | inr f ↦
            let (hit, g1, m1, r1, e, s, fit1, k, less) =
              solve_covers-step g m r total fit (u, ready) in
            elim (Bool-cases hit) [
              | inl t ↦ (
                true,
                g1,
                m1,
                r1,
                rw (refresh, u) (rw (try_covers, f, e, t) refl),
                (s, rank_lower g g1 f (covered_as g g1 false k f) (less t)),
                fit1,
              )
              | inr f' ↦
                  let g2 : Gen B M R E = record g1 { covered = true } in
                  let s2 = settled g1 g2 refl refl s in
                  let (b, g', m', r', e', (k', l, n, fit2)) =
                    next-IsKept h g2 m1 r1 total fit1 s2.0 in
                  (
                    b,
                    g',
                    m',
                    r',
                    rw (refresh, u) (rw (try_covers, f, e, f') e'),
                    (
                      settled g2 g' k' l s2,
                      rank_covered g g' (covered_as g2 g' true n (covered_now g1)),
                    ),
                    fit2,
                  )
            ]
      ]

      repeat_next_cov-rank :
          (n : ℕ) (h : Heap) (g : Gen B M R E) (m : M) (r : R.Rng)
          → IsTotal
          → IsFitGen g
          → IsSettled g
          → rank g ≤ n
          → (g' : Gen B M R E) × (m' : M) × (r' : R.Rng) × (repeat_next_cov n h (g, m, r)
              ≡ ok (g', m', r'))
            × (is_covered B M R E g' ≡ true)
      unfolding repeat_next_cov rank is_covered
      repeat_next_cov-rank zero h g m r total fit s k = (g, m, r, refl, ground arith)
      repeat_next_cov-rank (suc n) h g m r total fit s k =
          let (b, g1, m1, r1, e, (s1, l), fit1) = next_cov-IsLower h g m r total fit s in
          let (g', m', r', d, c) = repeat_next_cov-rank n h g1 m1 r1 total fit1 s1 (omega arith) in
          (g', m', r', rw e d, c)

      -- On a generator without changes, whose cover constraints can be posed, and with an invariant under
      -- which the calls of `solve` for the other variables and for vectors return, every call of `nextCov`
      -- returns, and after more calls than there are cover constraints not hit, `isCovered` is true.
      pub repeat_next_cov-covered :
          (n : ℕ) (h : Heap) (g : Gen B M R E) (m : M) (r : R.Rng)
          → IsTotal
          → IsFitGen g
          → IsSettled g
          → total_left B M R I L g.var_cov_gen < n
          → (g' : Gen B M R E) × (m' : M) × (r' : R.Rng) × (repeat_next_cov n h (g, m, r)
              ≡ ok (g', m', r'))
            × (is_covered B M R E g' ≡ true)
      unfolding rank is_covered
      repeat_next_cov-covered n h g m r total fit s k =
          repeat_next_cov-rank n h g m r total fit s (ground arith)
