-- ===== src/Solver/Answer.antt =====
-- What `solve(ignoreSofts)` of crave/src/lib/metaSMTNodeVisitorImpl.hpp answers.
use mathlib.Core.Path.{subst}
use mathlib.Core.List.{append-nil, append_assoc, Permᴰ}
use mathlib.Core.List.Permᴰ.{symm}
use crave.Prelude.{
  ℕ, zero, suc, ◌-◌, ◌<◌, ◌≡◌, refl, sym, ap, ◌∙◌, List, [], ◌∷◌, ◌++◌, map, Bool, true, false, ◌⊎◌,
  arith, length, length-set, get_elem?, get_elem?-All, none, some, All, All-append, All-set,
  All-split, Bool-cases, inl, inr, if◌then◌else◌, set,
}
use crave.Prelude.Result.{Result, ok, ◌>>=◌}
use crave.Prelude.Random.{Random, IsRandom, Permᴰ-All_map}
use crave.Solver.MetaSmt.{Term, result, Backend, IsIncremental}
use crave.Solver.Problem.{
  Problem, is_true, context_of, with_context, pop_back, drop_selected, assume_all, round, drop_one,
  solve_loop, solve,
}
use crave.Solver.Softs.{Satisfiable}

module _ {A : Type 0} where
  pop_back-All : (P : A → Type 0) (xs : List A) → All P xs → All P (pop_back xs)
  unfolding pop_back
  pop_back-All P [] h = tt
  pop_back-All P (x ∷ []) h = tt
  pop_back-All P (x ∷ y ∷ ys) h = (h.0, pop_back-All P (y ∷ ys) h.1)

  length-pop_back : (xs : List A) → length (pop_back xs) ≡ length xs - 1
  unfolding pop_back
  length-pop_back [] = refl
  length-pop_back (x ∷ []) = refl
  length-pop_back (x ∷ y ∷ ys) = ground (arith, length-pop_back (y ∷ ys))

  drop_selected-of :
      (k : ℕ) (xs : List A) (a b : A)
      → get_elem? xs k ≡ some a
      → get_elem? xs (length xs - 1) ≡ some b
      → drop_selected k xs ≡ ok (pop_back (set (set xs k b) (length xs - 1) a))
  unfolding drop_selected
  drop_selected-of k xs a b e d = rw (drop_selected, e, d) refl

  -- Within bounds, one element is dropped and the others stay.
  drop_selected-All :
      (P : A → Type 0) (k : ℕ) (xs : List A)
      → k < length xs
      → (ys : List A) × (drop_selected k xs ≡ ok ys)
        × (All P xs → All P ys)
        × (length ys ≡ length xs - 1)
  drop_selected-All P k xs h =
      let (a, e, pa) = get_elem?-All P xs k h in
      let (b, d, pb) = get_elem?-All P xs (length xs - 1) (omega arith) in
      (
        pop_back (set (set xs k b) (length xs - 1) a),
        drop_selected-of k xs a b e d,
        λ p. pop_back-All P _ (All-set P _ _ a (pa p) (All-set P xs k b (pb p) p)),
        ground (
          arith,
          length-pop_back (set (set xs k b) (length xs - 1) a),
          length-set (set xs k b) (length xs - 1) a,
          length-set xs k b,
        ),
      )

module _ (B : Backend) (I : IsIncremental B) where
  assumed-assume_all :
      (ts : List (Term (B.Expr))) (c : B.Context)
      → (I.asserted (assume_all B ts c) ≡ I.asserted c)
        × (I.assumed (assume_all B ts c) ≡ I.assumed c ++ ts)
  unfolding assume_all
  assumed-assume_all [] c = (refl, sym (append-nil _))
  assumed-assume_all (t ∷ ts) c =
      let (p, q) = assumed-assume_all ts (B.assumption t c) in
      (
        p ∙ I.asserted-assumption t c,
        q ∙ rw (I.assumed-assumption t c) (append_assoc (I.assumed c) (t ∷ []) ts),
      )

  -- The terms that `solve` must satisfy: the assertions, the assumptions and, unless they are
  -- ignored, the soft constraints. The suggestions are no part of it.
  unfoldable pub required : Bool → Problem B → List (Term (B.Expr))
  required ignore_softs p =
      I.asserted (context_of B p)
      ++ (map result p.assumptions ++ (if ignore_softs then [] else map is_true p.softs))

  -- An answer to a problem, with the problem that is left.
  abbrev pub IsAnswer : Bool → Problem B → Bool → Problem B → Type 0
  IsAnswer ignore_softs p b q =
      (b ≡ true → Satisfiable B I (required ignore_softs p))
      × (Satisfiable B I (required ignore_softs p) → b ≡ true)
      × (I.asserted (context_of B q) ≡ I.asserted (context_of B p))
      × (I.assumed (context_of B q) ≡ [])
      × (q.softs ≡ p.softs)
      × (q.store.scope.terminals ≡ p.store.scope.terminals)

  abbrev softly : Bool → Problem B → List (Term (B.Expr))
  softly ig p = if ig then [] else map is_true p.softs

  -- the context that `metaSMT::solve` gets in a round
  abbrev posed : Bool → Problem B → B.Context
  posed ig p = assume_all B (round B ig p) (context_of B p)

  -- One round, on the terms that it assumes.
  module _ (ig : Bool) (p : Problem B) (h : I.assumed (context_of B p) ≡ []) where
    posed-terms :
        I.asserted (posed ig p) ++ I.assumed (posed ig p)
        ≡ I.asserted (context_of B p)
          ++ (map result p.assumptions ++ (map result p.suggestions ++ (softly ig p)))
    unfolding round
    posed-terms =
        let (e, d) = assumed-assume_all (round B ig p) (context_of B p) in rw (e, d, h) refl

    round-true : (B.solve (posed ig p)).0 ≡ true → Satisfiable B I (required ig p)
    unfolding required
    round-true e =
        let (a, t) = I.solve-sound (posed ig p) e in
        let (u, v) =
          All-split (I.Holds a) (I.asserted (context_of B p)) _
            (subst (All (I.Holds a)) posed-terms t) in
        let (w, x) = All-split (I.Holds a) (map result p.assumptions) _ v in
        let (y, z) = All-split (I.Holds a) (map result p.suggestions) (softly ig p) x in
        (
          a,
          All-append (I.Holds a) (I.asserted (context_of B p)) _ u
              (All-append (I.Holds a) (map result p.assumptions) (softly ig p) w z),
        )

    round-last :
        p.suggestions ≡ [] → Satisfiable B I (required ig p) → (B.solve (posed ig p)).0 ≡ true
    unfolding required
    round-last e (a, t) =
        I.solve-complete (posed ig p) a (subst (All (I.Holds a)) (sym (posed-terms ∙ rw e refl)) t)

    round-asserted : I.asserted ((B.solve (posed ig p)).1) ≡ I.asserted (context_of B p)
    round-asserted =
        I.asserted-solve (posed ig p) ∙ (assumed-assume_all (round B ig p) (context_of B p)).0

  module _ (R : Random (B.Expr)) (L : IsRandom R) where
    -- A failed round, by what is left of the suggestions.
    drop_one-cases :
        (xs : List (B.Expr)) (r : R.Rng)
        → ((xs ≡ []) × (drop_one B R xs r ≡ none))
          ⊎ ((left : List (B.Expr)) × (s : R.Rng) × (drop_one B R xs r ≡ some (ok left, s))
              × (suc (length left) ≡ length xs))
    unfolding drop_one
    drop_one-cases [] r = inl (refl, refl)
    drop_one-cases (x ∷ xs) r =
        let (left, d, _, len) =
          drop_selected-All (λ y. Unit) ((R.random_unsigned (length (x ∷ xs)) r).0) (x ∷ xs)
            (L.below (length xs) r) in
        inr (left, (R.random_unsigned (length (x ∷ xs)) r).1, rw d refl, omega (arith, len))

    solve_loop-solved :
        (fuel : ℕ) (ig : Bool) (p : Problem B) (r : R.Rng)
        → (B.solve (posed ig p)).0 ≡ true
        → solve_loop B R (suc fuel) ig p r
          ≡ ok (true, with_context B ((B.solve (posed ig p)).1) p, r)
    unfolding solve_loop
    solve_loop-solved fuel ig p r e = rw (solve_loop, e) refl

    solve_loop-fails :
        (fuel : ℕ) (ig : Bool) (p : Problem B) (r : R.Rng)
        → (B.solve (posed ig p)).0 ≡ false
        → drop_one B R p.suggestions r ≡ none
        → solve_loop B R (suc fuel) ig p r
          ≡ ok (false, with_context B ((B.solve (posed ig p)).1) p, r)
    unfolding solve_loop
    solve_loop-fails fuel ig p r e n = rw (solve_loop, e, n) refl

    solve_loop-again :
        (fuel : ℕ) (ig : Bool) (p : Problem B) (r s : R.Rng) (left : List (B.Expr))
        → (B.solve (posed ig p)).0 ≡ false
        → drop_one B R p.suggestions r ≡ some (ok left, s)
        → solve_loop B R (suc fuel) ig p r
          ≡ solve_loop B R fuel ig
              (record (with_context B ((B.solve (posed ig p)).1) p) { suggestions = left })
              s
    unfolding solve_loop
    solve_loop-again fuel ig p r s left e n = rw (solve_loop, e, n) refl

    -- What a call returns: an answer to the problem.
    abbrev Answered : Bool → Problem B → Result (Bool × Problem B × R.Rng) → Type 0
    Answered ig p call =
        (b : Bool) × (q : Problem B) × (r : R.Rng) × (call ≡ ok (b, q, r)) × IsAnswer ig p b q

    solve_loop-Answered :
        (fuel : ℕ) (ig : Bool) (p : Problem B) (r : R.Rng)
        → I.assumed (context_of B p) ≡ []
        → length p.suggestions < fuel
        → Answered ig p (solve_loop B R fuel ig p r)
    unfolding required
    solve_loop-Answered zero ig p r h f = ground arith
    solve_loop-Answered (suc fuel) ig p r h f =
        let c = posed ig p in
        elim (Bool-cases (B.solve c).0) [
          | inl e ↦ (
            true,
            _,
            r,
            solve_loop-solved fuel ig p r e,
            (
              (λ z. round-true ig p h e),
              (λ z. refl),
              round-asserted ig p h,
              I.assumed-solve c,
              refl,
              refl,
            ),
          )
          | inr e ↦ elim (drop_one-cases p.suggestions r) [
            | inl (n, d) ↦ (
              false,
              _,
              r,
              solve_loop-fails fuel ig p r e d,
              (
                (λ z. cc),
                (λ z. sym e ∙ round-last ig p h n z),
                round-asserted ig p h,
                I.assumed-solve c,
                refl,
                refl,
              ),
            )
            | inr (left, s, d, len) ↦
                let (b, q, r', e', (t, u, v, w, k, l)) =
                  solve_loop-Answered fuel ig
                    (record (with_context B ((B.solve c).1) p) { suggestions = left }) s
                    (I.assumed-solve c) (omega arith) in
                (
                  b,
                  q,
                  r',
                  solve_loop-again fuel ig p r s left e d ∙ e',
                  (
                    (λ z. rw⁻¹ (round-asserted ig p h) (t z)),
                    (λ z. u (rw (round-asserted ig p h) z)),
                    v ∙ round-asserted ig p h,
                    w,
                    k,
                    l,
                  ),
                )
          ]
        ]

    -- The order of the assumptions does not matter.
    shuffled-Satisfiable :
        (ig : Bool) (p q : Problem B)
        → context_of B q ≡ context_of B p
        → q.softs ≡ p.softs
        → Permᴰ p.assumptions q.assumptions
        → Satisfiable B I (required ig p)
        → Satisfiable B I (required ig q)
    unfolding required
    shuffled-Satisfiable ig p q c s m (a, t) =
        let (u, v) = All-split (I.Holds a) (I.asserted (context_of B p)) _ t in
        let (w, x) = All-split (I.Holds a) (map result p.assumptions) _ v in
        (
          a,
          All-append (I.Holds a) (I.asserted (context_of B q)) _ (rw c u) (
              All-append (I.Holds a) (map result q.assumptions) _
                (Permᴰ-All_map (I.Holds a) result m w) (rw s x)),
        )

    abbrev settled : Bool × Problem B × R.Rng → Result (Bool × Problem B × R.Rng)
    settled (b, q, r) = ok (b, record q { assumptions = []; suggestions = [] }, r)

    finish :
        (ig : Bool) (p q : Problem B) (r : R.Rng)
        → context_of B q ≡ context_of B p
        → q.softs ≡ p.softs
        → q.store.scope.terminals ≡ p.store.scope.terminals
        → Permᴰ p.assumptions q.assumptions
        → (call : Result (Bool × Problem B × R.Rng)) → Answered ig q call
        → (b : Bool) × (t : Problem B) × (s : R.Rng) × ((call >>= settled) ≡ ok (b, t, s))
          × IsAnswer ig p b t
          × (t.assumptions ≡ [])
          × (t.suggestions ≡ [])
    finish ig p q r c sf k m call (b, t, s, e, (u, v, w, x, y, z)) = (
      b,
      record t { assumptions = []; suggestions = [] },
      s,
      rw e refl,
      (
        (λ i. shuffled-Satisfiable ig q p (sym c) (sym sf) (symm m) (u i)),
        (λ i. v (shuffled-Satisfiable ig p q c sf m i)),
        w ∙ ap I.asserted c,
        x,
        y ∙ sf,
        z ∙ k,
      ),
      refl,
      refl,
    )

    -- For every source of chance, `solve` on a context with nothing assumed returns. It answers true
    -- exactly if some assignment satisfies the assertions, the assumptions and, unless they are
    -- ignored, the soft constraints; suggestions never change the answer. Assumptions and suggestions
    -- are gone after it; assertions, soft constraints and the terms of the variables are as before.
    pub solve-IsAnswer :
        (ig : Bool) (p : Problem B) (r : R.Rng)
        → I.assumed (context_of B p) ≡ []
        → (b : Bool) × (q : Problem B) × (s : R.Rng) × (solve B R ig p r ≡ ok (b, q, s))
          × IsAnswer ig p b q
          × (q.assumptions ≡ [])
          × (q.suggestions ≡ [])
    unfolding solve
    solve-IsAnswer ig p r h =
        let (assumptions, r1) = R.random_shuffle p.assumptions r in
        let (suggestions, r2) = R.random_shuffle p.suggestions r1 in
        let q : Problem B = record p { assumptions = assumptions; suggestions = suggestions } in
        finish ig p q r refl refl refl (L.shuffled p.assumptions r) _
          (solve_loop-Answered (suc (length suggestions)) ig q r2 h (omega arith))
