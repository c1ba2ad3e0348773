-- ===== src/Generator/Picked.antt =====
-- The answer of crave/src/lib/VariableDefaultSolver.cpp: suggestions never decide it.
use Prim.Native.String.{String}
use mathlib.Core.Path.{subst}
use crave.Prelude.{
  ℕ, ◌+◌, ◌/◌, ◌≡◌, refl, sym, ◌∙◌, List, [], ◌∷◌, Bool, true, false, Option, some, ◌==◌, length,
  if◌then◌else◌, All, Bool-cases, Option-cases, inl, inr, arith,
}
use crave.Prelude.Result.{ok, Returns}
use crave.Prelude.Random.{IsRandom}
use crave.Ir.{Constant, Node}
use crave.Solver.MetaSmt.{Backend, IsIncremental}
use crave.Solver.Problem.{Problem, context_of, make_suggestion, solve}
use crave.Solver.Softs.{Satisfiable}
use crave.Solver.Answer.{required, solve-IsAnswer}
use crave.Generator.Cover.{assume_refs, write_refs}
use crave.Generator.Ready.{IsTranslatable, IsIdle, assume_refs-returns}
use crave.Generator.Default.{
  Chance, random_of, Values, DefaultSolver, equals, text_of, suggest_bdd, suggest_bdds,
  suggest_dists, suggest_values, shuffle_refs, prepare, has_contradictions, solve_prepared,
  solve_default,
}
use crave.VectorGenerator.Build.{take}
use crave.Generator.Suggest.{IsUnmoved, suggestion-returns, equals-IsTranslatable}

module _ (B : Backend) (I : IsIncremental B) where
  module _ (C : Backend) (M : Type 0) (ch : Chance) (V : Values M (ch.Rng))
      (nodes : (id : ℕ) → IsTranslatable (V.node id)) where
    -- The variable has a node that can be posed with any value.
    value-returns :
        (id : ℕ) (k : Constant) (p : Problem B)
        → IsIdle B I p
        → Returns (make_suggestion B (equals (V.node id) k) p) (IsUnmoved B I p)
    value-returns id k p i =
        suggestion-returns B I (equals (V.node id) k) p
          (equals-IsTranslatable B I (V.node id) k (nodes id)) i

    suggest_values-returns :
        (ids : List ℕ) (m : M) (p : Problem B)
        → IsIdle B I p
        → Returns (suggest_values B C M ch V ids m p) (IsUnmoved B I p)
    unfolding suggest_values
    suggest_values-returns [] m p i = (p, refl, (i, refl))
    suggest_values-returns (id ∷ ids) m p i =
        let (q, e, (j, s)) = value-returns id (V.value_as_constant id m) p i in
        let (w, f, (k, t)) = suggest_values-returns ids m q j in (w, rw e f, (k, t ∙ s))

    suggest_dists-returns :
        (refs : List (ℕ × (M → Node × M))) (m : M) (p : Problem B)
        → All (λ pair. (m : M) → IsTranslatable (pair.1 m).0) refs
        → IsIdle B I p
        → Returns (suggest_dists B C M ch V refs m p) (λ r. IsUnmoved B I p r.1)
    unfolding suggest_dists
    suggest_dists-returns [] m p h i = ((m, p), refl, (i, refl))
    suggest_dists-returns (pair ∷ refs) m p h i =
        let (q, e, (j, s)) = suggestion-returns B I (pair.1 m).0 p (h.0 m) i in
        let ((m1, w), f, (k, t)) = suggest_dists-returns refs (pair.1 m).1 q h.1 j in
        ((m1, w), rw e f, (k, t ∙ s))

    module _ (J : IsIncremental C) (K : IsRandom (random_of ch (C.Expr))) where
      -- A solver of one variable that is asked for the first time or again has a solution: else the
      -- analysis has found a contradiction.
      abbrev pub Good : Problem C → Type 0
      Good b =
          (J.assumed (context_of C b) ≡ [])
          × (b.assumptions ≡ [])
          × Satisfiable C J (required C J true b)

      solved :
          (b : Problem C) (r : ch.Rng)
          → Good b
          → Returns (solve C (random_of ch (C.Expr)) true b r) (λ a. (a.0 ≡ true) × Good a.1)
      unfolding required
      solved b r (i, n, h) =
          let (found, q, s, e, (_, y, d, j, _, _), m, _) =
            solve-IsAnswer C J (random_of ch (C.Expr)) K true b r i in
          let same : required C J true q ≡ required C J true b = rw (d, m, n) refl in
          ((found, q, s), e, (y h, (j, m, subst (Satisfiable C J) (sym same) h)))

      abbrev pub AllGood : (ℕ → Option (Problem C)) → Type 0
      AllGood bdds = (id : ℕ) (b : Problem C) → bdds id ≡ some b → Good b

      suggest_bdd-returns :
          (id : ℕ) (b : Problem C) (p : Problem B) (r : ch.Rng)
          → Good b
          → IsIdle B I p
          → Returns (suggest_bdd B C M ch V id b p r) (λ a. Good a.0 × IsUnmoved B I p a.1)
      unfolding suggest_bdd
      suggest_bdd-returns id b p r g i =
          let ((found, b1, r1), e, (t, g1)) = solved b r g in
          let (k, r2) = V.to_constant id (text_of B C M ch V id b1) r1 in
          let (q, f, u) = value-returns id k p i in ((b1, q, r2), rw e (rw t (rw f refl)), (g1, u))

      after_one :
          (k id : ℕ) (b c : Problem C) (bdds : ℕ → Option (Problem C))
          → AllGood bdds
          → Good b
          → (if k == id then some b else bdds id) ≡ some c
          → Good c
      after_one k id b c bdds g h e = elim (Bool-cases (k == id)) [
        | inl t ↦ let same : b ≡ c = ground arith in subst Good same h
        | inr t ↦ g id c (ground arith)
      ]

      suggest_bdds-returns :
          (refs : List (ℕ × (String → M → M))) (bdds : ℕ → Option (Problem C)) (p : Problem B)
          (r : ch.Rng)
          → AllGood bdds
          → IsIdle B I p
          → Returns (suggest_bdds B C M ch V refs bdds p r) (λ a. AllGood a.0 × IsUnmoved B I p a.1)
      unfolding suggest_bdds
      suggest_bdds-returns [] bdds p r g i = ((bdds, p, r), refl, (g, (i, refl)))
      suggest_bdds-returns (pair ∷ refs) bdds p r g i = elim (Option-cases (bdds pair.0)) [
        | inl n ↦
            let (a, e, h) = suggest_bdds-returns refs bdds p r g i in (a, rw (suggest_bdds, n) e, h)
        | inr (b, n) ↦
            let ((b1, q, r1), e, (g1, (j, s))) =
              suggest_bdd-returns pair.0 b p r (g pair.0 b n) i in
            let more : ℕ → Option (Problem C) = λ k. if pair.0 == k then some b1 else bdds k in
            let (a, f, (g2, (k, t))) =
              suggest_bdds-returns refs more q r1 (λ id c h. after_one pair.0 id b1 c bdds g g1 h)
                j in
            (a, rw (suggest_bdds, n) (rw e f), (g2, (k, t ∙ s)))
      ]

      -- What can be posed: the references of the solver, on an idle solver, and its BDD solvers.
      abbrev pub IsPosed : DefaultSolver B C M → Type 0
      IsPosed s =
          IsIdle B I s.problem
          × AllGood s.bdd_solvers
          × All (λ pair. (m : M) → IsTranslatable (pair.1 m)) s.var_ctn.read_references
          × All (λ pair. (m : M) → IsTranslatable (pair.1 m).0) s.var_ctn.dist_references

      -- The problem with the values of the references that are read: it adds to the terms that a
      -- solution has to satisfy what `assume_refs` adds, and no suggestion counts.
      abbrev pub IsRead : DefaultSolver B C M → M → Problem B → Type 0
      IsRead s m p2 =
          (p1 : Problem B) × (required B I true p1 ≡ required B I true s.problem)
          × (assume_refs B s.var_ctn.read_references m p1 ≡ ok p2)

      prepare-returns :
          (s : DefaultSolver B C M) (m : M) (r : ch.Rng)
          → IsPosed s
          → (t : DefaultSolver B C M) × (m1 : M) × (r1 : ch.Rng) × (p2 : Problem B) × (prepare B C M
                ch V s m r
              ≡ ok (t, m1, r1))
            × IsRead s m p2
            × (required B I true t.problem ≡ required B I true p2)
            × IsIdle B I t.problem
            × AllGood t.bdd_solvers
            × (t.var_ctn ≡ s.var_ctn)
            × (has_contradictions B C M ch V t ≡ has_contradictions B C M ch V s)
      unfolding prepare has_contradictions
      prepare-returns s m r (i, g, reads, dists) =
          let ((bdds, p1, r1), e1, (g1, (i1, u1))) =
            suggest_bdds-returns s.var_ctn.write_references s.bdd_solvers s.problem r g i in
          let (p2, e2, i2) = assume_refs-returns B I s.var_ctn.read_references m p1 reads i1 in
          let ((m1, p3), e3, (i3, u3)) =
            suggest_dists-returns s.var_ctn.dist_references m p2 dists i2 in
          let (refs, r2) = shuffle_refs B C M ch V s.random_write_refs r1 in
          let (p4, e4, (i4, u4)) =
            suggest_values-returns (take ((length refs + 1) / 2) refs) m1 p3 i3 in
          (
            record s { problem = p4; bdd_solvers = bdds; random_write_refs = refs },
            m1,
            r2,
            p2,
            rw e1 (rw e2 (rw e3 (rw e4 refl))),
            (p1, u1, e2),
            u4 ∙ u3,
            i4,
            g1,
            refl,
            refl,
          )

      pub solve_default-IsPicked :
          (L : IsRandom (random_of ch (B.Expr))) (s : DefaultSolver B C M) (m : M) (r : ch.Rng)
          → has_contradictions B C M ch V s ≡ false
          → IsPosed s
          → (b : Bool) × (t : DefaultSolver B C M) × (m1 : M) × (r1 : ch.Rng) × (p2 : Problem B)
            × (solve_default B C M ch V s m r ≡ ok (b, t, m1, r1))
            × IsRead s m p2
            × (b ≡ true → Satisfiable B I (required B I true p2))
            × (Satisfiable B I (required B I true p2) → b ≡ true)
            × IsPosed t
            × (has_contradictions B C M ch V t ≡ false)
      unfolding solve_default solve_prepared has_contradictions
      solve_default-IsPicked L s m r n h =
          let (t, m1, r1, p2, e, d, u, i, g, v, w) = prepare-returns s m r h in
          let (b, q, r2, f, (x, y, _, j, _, _), _, _) =
            solve-IsAnswer B I (random_of ch (B.Expr)) L true t.problem r1 i in
          (
            b,
            record t { problem = q },
            (if b then write_refs B t.var_ctn.write_references q m1 else m1),
            r2,
            p2,
            rw (solve_default, n) (rw e (rw f refl)),
            d,
            (λ z. subst (Satisfiable B I) u (x z)),
            (λ z. y (subst (Satisfiable B I) (sym u) z)),
            (j, g, rw v h.2, rw v h.3),
            w ∙ n,
          )
