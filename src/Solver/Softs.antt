-- ===== src/Solver/Softs.antt =====
-- The choice of soft constraints by `analyseSofts` of crave/src/lib/metaSMTNodeVisitorImpl.hpp.
use mathlib.Core.Path.{subst}
use mathlib.Core.List.{append-nil, append_assoc}
use crave.Prelude.{
  ℕ, suc, ◌≤◌, ◌≡◌, refl, sym, ap, ◌∙◌, List, [], ◌∷◌, ◌++◌, map, true, false, ◌==◌, if◌then◌else◌,
  arith, length, All, All-append, All-map, All-split, Bool-cases, inl, inr,
}
use crave.Solver.MetaSmt.{Term, Backend, IsIncremental}
use crave.Solver.Problem.{Problem, is_true, context_of, analyse_from, analyse_softs}

-- The elements at the indices of an ascending list, where the first one has the index `i`.
unfoldable pub at_indices : {A : Type 0} → ℕ → List ℕ → List A → List A
at_indices i ks [] = []
at_indices i [] (s ∷ ss) = []
at_indices i (k ∷ ks) (s ∷ ss) =
    if k == i then s ∷ at_indices (suc i) ks ss else at_indices (suc i) (k ∷ ks) ss

-- The elements at all other indices.
unfoldable pub other_than : {A : Type 0} → ℕ → List ℕ → List A → List A
other_than i ks [] = []
other_than i [] (s ∷ ss) = s ∷ ss
other_than i (k ∷ ks) (s ∷ ss) =
    if k == i then other_than (suc i) ks ss else s ∷ other_than (suc i) (k ∷ ks) ss

other_than-behind :
    {A : Type 0} (i : ℕ) (ks : List ℕ) (s : A) (ss : List A)
    → All (λ k. suc i ≤ k) ks
    → (other_than i ks (s ∷ ss) ≡ s ∷ other_than (suc i) ks ss)
      × (at_indices i ks (s ∷ ss) ≡ at_indices (suc i) ks ss)
unfolding other_than at_indices
other_than-behind i [] s [] h = (refl, refl)
other_than-behind i [] s (t ∷ ss) h = (refl, refl)
other_than-behind i (k ∷ ks) s ss h = ground arith

other_than-here :
    {A : Type 0} (i : ℕ) (ks : List ℕ) (s : A) (ss : List A)
    → (other_than i (i ∷ ks) (s ∷ ss) ≡ other_than (suc i) ks ss)
      × (at_indices i (i ∷ ks) (s ∷ ss) ≡ s ∷ at_indices (suc i) ks ss)
unfolding other_than at_indices
other_than-here i ks s ss = ground arith

module _ (B : Backend) (I : IsIncremental B) where
  -- Some assignment satisfies all the terms.
  abbrev pub Satisfiable : List (Term (B.Expr)) → Type 0
  Satisfiable ts = (a : I.Assignment) × All (I.Holds a) ts

  -- What the loop has done, from the index `i` and the context `c` on.
  abbrev pub IsChosen : ℕ → List (B.Expr) → B.Context → List ℕ → B.Context → Type 0
  IsChosen i ss c is d =
      (I.asserted d ≡ I.asserted c ++ map is_true (other_than i is ss))
      × (I.assumed d ≡ [])
      × (Satisfiable (I.asserted c) → Satisfiable (I.asserted d))
      × All (λ k. i ≤ k) is
      × All (λ s. ¬ Satisfiable (I.asserted d ++ is_true s ∷ [])) (at_indices i is ss)
      × (length (at_indices i is ss) ≡ length is)

  -- The context of a question, with nothing assumed before it.
  module _ (t : Term (B.Expr)) (c : B.Context) (h : I.assumed c ≡ []) where
    asked : I.asserted (B.assumption t c) ++ I.assumed (B.assumption t c) ≡ I.asserted c ++ t ∷ []
    asked = rw (I.asserted-assumption t c, I.assumed-assumption t c, h) refl

    kept : I.asserted ((B.solve (B.assumption t c)).1) ≡ I.asserted c
    kept = I.asserted-solve (B.assumption t c) ∙ I.asserted-assumption t c

    pub answer-true : (B.solve (B.assumption t c)).0 ≡ true → Satisfiable (I.asserted c ++ t ∷ [])
    answer-true e = subst Satisfiable asked (I.solve-sound (B.assumption t c) e)

    pub answer-false :
        (B.solve (B.assumption t c)).0 ≡ false → ¬ Satisfiable (I.asserted c ++ t ∷ [])
    answer-false e (a, p) =
        let q : (B.solve (B.assumption t c)).0 ≡ true =
          I.solve-complete (B.assumption t c) a (subst (All (I.Holds a)) (sym asked) p) in
        cc

  accepted :
      (i : ℕ) (s : B.Expr) (ss : List (B.Expr)) (c c1 d : B.Context) (is : List ℕ)
      → I.asserted c1 ≡ I.asserted c ++ is_true s ∷ []
      → Satisfiable (I.asserted c1)
      → IsChosen (suc i) ss c1 is d
      → IsChosen i (s ∷ ss) c is d
  accepted i s ss c c1 d is e w (p, q, r, below, no_more, len) =
      let (o, a) = other_than-behind i is s ss below in
      (
        rw o (p ∙ rw e (append_assoc (I.asserted c) (is_true s ∷ []) _)),
        q,
        λ z. r w,
        All-map (λ k. suc i ≤ k) (λ k. i ≤ k) (λ k z. omega arith) is below,
        rw a no_more,
        rw a len,
      )

  -- A term that cannot hold beside some terms cannot beside more.
  rejected-more :
      (xs ys : List (Term (B.Expr))) (t : Term (B.Expr))
      → ¬ Satisfiable (xs ++ t ∷ [])
      → ¬ Satisfiable ((xs ++ ys) ++ t ∷ [])
  rejected-more xs ys t n (a, p) =
      let (q, u) = All-split (I.Holds a) (xs ++ ys) (t ∷ []) p in
      n (a, All-append (I.Holds a) xs (t ∷ []) (All-split (I.Holds a) xs ys q).0 u)

  rejected :
      (i : ℕ) (s : B.Expr) (ss : List (B.Expr)) (c c1 d : B.Context) (is : List ℕ)
      → I.asserted c1 ≡ I.asserted c
      → ¬ Satisfiable (I.asserted c ++ is_true s ∷ [])
      → IsChosen (suc i) ss c1 is d
      → IsChosen i (s ∷ ss) c (i ∷ is) d
  rejected i s ss c c1 d is e n (p, q, r, below, no_more, len) =
      let (o, a) = other_than-here i is s ss in
      let p' : I.asserted d ≡ I.asserted c ++ map is_true (other_than (suc i) is ss) =
        rw (sym e) p in
      let n' : ¬ Satisfiable (I.asserted d ++ is_true s ∷ []) =
        rw p' (rejected-more (I.asserted c) _ (is_true s) n) in
      (
        rw o p',
        q,
        λ z. r (rw e z),
        (omega arith, All-map (λ k. suc i ≤ k) (λ k. i ≤ k) (λ k z. omega arith) is below),
        rw a (n', no_more),
        rw a (ap suc len),
      )

  analyse_from-IsChosen :
      (i : ℕ) (ss : List (B.Expr)) (c : B.Context)
      → I.assumed c ≡ []
      → IsChosen i ss c (analyse_from B i ss c).0 (analyse_from B i ss c).1
  unfolding analyse_from at_indices other_than
  analyse_from-IsChosen i [] c h = (sym (append-nil _), h, λ z. z, tt, tt, refl)
  analyse_from-IsChosen i (s ∷ ss) c h =
      let d = (B.solve (B.assumption (is_true s) c)).1 in
      elim (Bool-cases (B.solve (B.assumption (is_true s) c)).0) [
        | inl e ↦
            let c1 = B.assertion (is_true s) d in
            let a : I.asserted c1 ≡ I.asserted c ++ is_true s ∷ [] =
              rw (I.asserted-assertion (is_true s) d, kept (is_true s) c h) refl in
            let m : I.assumed c1 ≡ [] = I.assumed-assertion (is_true s) d ∙ I.assumed-solve _ in
            rw (analyse_from, e)
              (accepted i s ss c c1 _ _ a (rw a (answer-true (is_true s) c h e))
                (analyse_from-IsChosen (suc i) ss c1 m))
        | inr e ↦
            rw (analyse_from, e)
              (rejected i s ss c d _ _ (kept (is_true s) c h) (answer-false (is_true s) c h e)
                (analyse_from-IsChosen (suc i) ss d (I.assumed-solve _)))
      ]

  -- The result of the choice, with the problem that is left.
  abbrev pub IsMaximal : Problem B → List ℕ → Problem B → Type 0
  IsMaximal p is q =
      (q.softs ≡ [])
      × (I.asserted (context_of B q)
          ≡ I.asserted (context_of B p) ++ map is_true (other_than 0 is p.softs))
      × (Satisfiable (I.asserted (context_of B p)) → Satisfiable (I.asserted (context_of B q)))
      × All (λ s. ¬ Satisfiable (I.asserted (context_of B q) ++ is_true s ∷ []))
          (at_indices 0 is p.softs)
      × (length (at_indices 0 is p.softs) ≡ length is)

  -- On a context with nothing assumed, `analyseSofts` asserts the soft constraints but those at the
  -- indices that it returns, in order, and empties their list. If the hard constraints can hold,
  -- they can hold with all that it asserted; and none of the soft constraints that it rejects can
  -- hold beside that. The returned indices are ones of the list.
  pub analyse_softs-IsMaximal :
      (p : Problem B)
      → I.assumed (context_of B p) ≡ []
      → (is : List ℕ) × (q : Problem B) × (analyse_softs B p ≡ (is, q)) × IsMaximal p is q
  unfolding analyse_softs
  analyse_softs-IsMaximal p h =
      let (e, m, sat, below, no_more, len) = analyse_from-IsChosen 0 p.softs (context_of B p) h in
      (_, _, refl, (refl, e, sat, no_more, len))
