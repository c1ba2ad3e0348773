-- ===== src/Generator/Hits.antt =====
-- The progress of crave/src/lib/VariableCoverageSolver.cpp: a call of `solve` returns, and hits one cover
-- constraint that was not hit before if it answers true.
use text.Mathlib.TextEquality.{eq_iff}
use mathlib.Core.List.{Memᴰ}
use mathlib.Core.Path.{subst}
use Prim.Native.String.{String}
use crave.Prelude.{
  ℕ, suc, ◌≤◌, ◌<◌, ◌≡◌, refl, ◌∙◌, List, [], ◌∷◌, Bool, true, false, arith, if◌then◌else◌, All,
  All-map, Bool-cases, inl, inr,
}
use crave.Prelude.Result.{ok}
use crave.Prelude.Random.{Random, IsRandom}
use crave.Constraint.{UserConstraint}
use crave.Solver.MetaSmt.{Backend, IsIncremental}
use crave.Solver.Problem.{Problem}
use crave.Solver.Answer.{solve-IsAnswer}
use crave.Generator.Cover.{
  is_named, CoverageSolver, Machine, is_passed, after_solve, try_constraint, try_all,
  solve_coverage,
}
use crave.Generator.Ready.{IsTranslatable, IsIdle, assume_refs-returns, make_assumption-returns}

-- How many cover constraints of a list are not covered.
unfoldable pub uncovered : List UserConstraint → List String → ℕ
uncovered [] covered = 0
uncovered (c ∷ cs) covered =
    let rest = uncovered cs covered in if is_passed c covered then rest else suc rest

is_passed-more :
    (c : UserConstraint) (name : String) (covered : List String)
    → is_passed c covered ≡ true
    → is_passed c (name ∷ covered) ≡ true
unfolding is_named
is_passed-more c name covered h = ground arith

is_passed-itself :
    (c : UserConstraint) (covered : List String) → is_passed c (c.name ∷ covered) ≡ true
unfolding is_named
is_passed-itself c covered = ground (arith, (eq_iff c.name c.name).1 refl)

uncovered-more :
    (cs : List UserConstraint) (name : String) (covered : List String)
    → uncovered cs (name ∷ covered) ≤ uncovered cs covered
unfolding uncovered
uncovered-more [] name covered = omega arith
uncovered-more (c ∷ cs) name covered =
    ground (arith, uncovered-more cs name covered, is_passed-more c name covered)

-- A hit leaves fewer of them.
uncovered-hit :
    (c : UserConstraint) (cs : List UserConstraint) (covered : List String)
    → Memᴰ c cs
    → is_passed c covered ≡ false
    → uncovered cs (c.name ∷ covered) < uncovered cs covered
unfolding uncovered
uncovered-hit c [] covered m p = elim m [ ]
uncovered-hit c (d ∷ cs) covered (Memᴰ.head e) p =
    rw⁻¹ e (ground (arith, uncovered-more cs c.name covered, is_passed-itself c covered))
uncovered-hit c (d ∷ cs) covered (Memᴰ.tail m) p =
    ground (arith, uncovered-hit c cs covered m p, is_passed-more d c.name covered)

All-within : (cs : List UserConstraint) → All (λ c. Memᴰ c cs) cs
All-within [] = tt
All-within (c ∷ cs) = (
  Memᴰ.head refl,
  All-map (λ d. Memᴰ d cs) (λ d. Memᴰ d (c ∷ cs)) (λ d m. Memᴰ.tail m) cs (All-within cs),
)

module _ (B : Backend) (I : IsIncremental B) (M : Type 0) (R : Random (B.Expr))
    (L : IsRandom R) where
  -- Everything that a call may pose can be translated, and the solver is idle.
  abbrev pub IsReady : CoverageSolver B M → Type 0
  IsReady s =
      IsIdle B I s.problem
      × All (λ pair. (m : M) → IsTranslatable (pair.1 m)) s.var_ctn.read_references
      × All (λ c. IsTranslatable c.expr) s.constr_pttn.constraints

  -- The number of cover constraints that the solver has not hit.
  abbrev pub left_of : CoverageSolver B M → ℕ
  left_of s = uncovered s.constr_pttn.constraints s.covered_set

  -- One constraint is posed.
  abbrev IsTried : UserConstraint → CoverageSolver B M → Bool → CoverageSolver B M → Type 0
  IsTried c s hit t =
      IsIdle B I t.problem
      × (t.var_ctn ≡ s.var_ctn)
      × (t.constr_pttn ≡ s.constr_pttn)
      × (t.covered_set ≡ (if hit then c.name ∷ s.covered_set else s.covered_set))

  after_solve-IsTried :
      (c : UserConstraint) (s : CoverageSolver B M) (m : M) (hit : Bool) (p : Problem B) (r : R.Rng)
      → IsIdle B I p
      → IsTried c s
          (after_solve B M R c s m (hit, p, r)).0
          (after_solve B M R c s m (hit, p, r)).1.0
  unfolding after_solve
  after_solve-IsTried c s m true p r i = (i, refl, refl, refl)
  after_solve-IsTried c s m false p r i = (i, refl, refl, refl)

  try_constraint-IsTried :
      (c : UserConstraint) (s : CoverageSolver B M) (m : M) (r : R.Rng)
      → IsReady s
      → IsTranslatable c.expr
      → (b : Bool) × (st : Machine B M R) × (try_constraint B M R c (s, m, r) ≡ ok (b, st))
        × IsTried c s b st.0
  unfolding try_constraint
  try_constraint-IsTried c s m r (i, reads, _) t =
      let (p1, e1, i1) = assume_refs-returns B I s.var_ctn.read_references m s.problem reads i in
      let (p2, e2, i2) = make_assumption-returns B I c.expr p1 t i1 in
      let (hit, p, r', e3, answer, _, _) = solve-IsAnswer B I R L true p2 r i2 in
      (
        (after_solve B M R c s m (hit, p, r')).0,
        (after_solve B M R c s m (hit, p, r')).1,
        rw e1 (rw e2 (rw e3 refl)),
        after_solve-IsTried c s m hit p r' answer.3,
      )

  stays-IsReady :
      (c : UserConstraint) (s t : CoverageSolver B M) (b : Bool)
      → IsReady s
      → IsTried c s b t
      → IsReady t
  stays-IsReady c s t b (i, reads, all) (j, v, k, _) = (j, rw v reads, rw k all)

  -- What a call does: it keeps the partition and the references; it covers nothing if it answers
  -- false, and one cover constraint that was not covered if it answers true.
  abbrev pub IsProgress : CoverageSolver B M → Bool → CoverageSolver B M → Type 0
  IsProgress s b t =
      IsReady t
      × (t.constr_pttn ≡ s.constr_pttn)
      × (b ≡ false → t.covered_set ≡ s.covered_set)
      × (b ≡ true
          → (c : UserConstraint) × Memᴰ c s.constr_pttn.constraints
            × (is_passed c s.covered_set ≡ false)
            × (t.covered_set ≡ c.name ∷ s.covered_set))

  -- A constraint of the loop, and the rest of the loop.
  step :
      (c : UserConstraint) (s t : CoverageSolver B M) (b : Bool)
      → Memᴰ c s.constr_pttn.constraints
      → is_passed c s.covered_set ≡ false
      → IsReady s
      → IsTried c s b t
      → IsProgress s b t
  step c s t true m p r h = (stays-IsReady c s t true r h, h.2, (λ i. cc), (λ i. (c, m, p, h.3)))
  step c s t false m p r h = (stays-IsReady c s t false r h, h.2, (λ i. h.3), (λ i. cc))

  after_miss :
      (c : UserConstraint) (s t u : CoverageSolver B M) (b : Bool)
      → IsTried c s false t
      → IsProgress t b u
      → IsProgress s b u
  after_miss c s t u b (i, v, k, n) (r, q, f, g) =
      (r, q ∙ k, (λ z. f z ∙ n), (λ z. rw⁻¹ (k, n) (g z)))

  -- Every constraint of the first list stands in the second.
  abbrev IsWithin : List UserConstraint → List UserConstraint → Type 0
  IsWithin cs ds = All (λ c. Memᴰ c ds) cs

  try_all-IsProgress :
      (cs : List UserConstraint) (s : CoverageSolver B M) (m : M) (r : R.Rng)
      → IsReady s
      → IsWithin cs s.constr_pttn.constraints
      → All (λ c. IsTranslatable c.expr) cs
      → (b : Bool) × (st : Machine B M R) × (try_all B M R cs (s, m, r) ≡ ok (b, st))
        × IsProgress s b st.0
  unfolding try_all
  try_all-IsProgress [] s m r h w a = (false, (s, m, r), refl, (h, refl, (λ z. refl), (λ z. cc)))
  try_all-IsProgress (c ∷ cs) s m r h w a = elim (Bool-cases (is_passed c s.covered_set)) [
    | inl p ↦
        let (b, st, e, q) = try_all-IsProgress cs s m r h w.1 a.1 in (b, st, rw (try_all, p) e, q)
    | inr p ↦
        let (b, (t, m', r'), e, tried) = try_constraint-IsTried c s m r h a.0 in
        elim (Bool-cases b) [
          | inl hit ↦ (
            true,
            (t, m', r'),
            rw (try_all, p, e, hit) refl,
            step c s t true w.0 p h (subst (λ x. IsTried c s x t) hit tried),
          )
          | inr missed ↦
              let tried' = subst (λ x. IsTried c s x t) missed tried in
              let h' = stays-IsReady c s t false h tried' in
              let (b', st, e', q) = try_all-IsProgress cs t m' r' h' (rw (tried'.2) w.1) a.1 in
              (b', st, rw (try_all, p, e, missed) e', after_miss c s t st.0 b' tried' q)
        ]
  ]

  -- A ready solver's `solve` returns a solver that is ready, over the same partition: with the same
  -- constraints covered if it answers false, and with one more, a cover constraint of the partition
  -- that was not covered, if it answers true.
  pub solve_coverage-IsProgress :
      (s : CoverageSolver B M) (m : M) (r : R.Rng)
      → IsReady s
      → (b : Bool) × (st : Machine B M R) × (solve_coverage B M R (s, m, r) ≡ ok (b, st))
        × IsProgress s b st.0
  unfolding solve_coverage
  solve_coverage-IsProgress s m r h =
      try_all-IsProgress s.constr_pttn.constraints s m r h (All-within _) h.2

  pub progress-left :
      (s t : CoverageSolver B M) (b : Bool)
      → IsProgress s b t
      → (b ≡ true → left_of t < left_of s) × (b ≡ false → left_of t ≡ left_of s)
  progress-left s t b (_, k, f, g) = (
    (λ h.
        let (c, m, p, e) = g h in
        rw (k, e) (uncovered-hit c s.constr_pttn.constraints s.covered_set m p)),
    (λ h. rw (k, f h) refl),
  )
