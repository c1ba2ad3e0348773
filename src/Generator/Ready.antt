-- ===== src/Generator/Ready.antt =====
-- Problems whose expressions can all be translated: then the calls that pose them return.
use crave.Prelude.{
  ℕ, ◌≡◌, refl, ◌∙◌, List, [], ◌∷◌, ◌++◌, Bool, true, false, not, ◌&&◌, All, Bool-cases, inl, inr,
}
use crave.Prelude.Result.{ok}
use crave.Ir.{Node}
use crave.Ir.Support.{occurs}
use crave.Ir.Eval.Direct.{is_filled}
use crave.Constraint.{UserConstraint}
use crave.Solver.MetaSmt.{Backend, IsIncremental}
use crave.Solver.{evaluated, visit}
use crave.Solver.Problem.{
  Problem, is_true, context_of, with_context, translate, make_assertion, make_assumption,
  returned-ok,
}
use crave.Solver.Translation.{is_scalar, Built, unchanged, evaluation, Translated, visit-Translated}
use crave.Generator.Cover.{assert_hards, assume_refs}

-- No placeholder and nothing of vectors stands in the expression.
abbrev pub IsTranslatable : Node → Type 0
IsTranslatable n = (is_filled n ≡ true) × (is_scalar n ≡ true)

module _ (B : Backend) (I : IsIncremental B) where
  -- Nothing is assumed of the context before a call of `metaSMT::solve`.
  abbrev pub IsIdle : Problem B → Type 0
  IsIdle p = I.assumed (context_of B p) ≡ []

  pub assumed-Built : {c d : B.Context} → Built B c d → I.assumed d ≡ I.assumed c
  assumed-Built unchanged = refl
  assumed-Built (evaluation t b) = I.assumed-evaluate t _ ∙ assumed-Built b

  pub asserted-Built : {c d : B.Context} → Built B c d → I.asserted d ≡ I.asserted c
  asserted-Built unchanged = refl
  asserted-Built (evaluation t b) = I.asserted-evaluate t _ ∙ asserted-Built b

  translated :
      (b : Bool) (ids : ℕ → Bool) (n : Node) (p : Problem B)
      → b ≡ true
      → Translated B b ids p.store (visit B n p.store)
      → IsIdle p
      → (e : B.Expr) × (q : Problem B) × (translate B n p ≡ ok (e, q))
        × IsIdle q
        × (q.softs ≡ p.softs)
        × (I.asserted (context_of B q) ≡ I.asserted (context_of B p))
  unfolding Translated translate
  translated true ids n p t (e, g, h, x, c, b) i =
      let q : Problem B = record p { store = record (p.store) { scope = g } } in
      (e.0, q, rw h (rw (returned-ok I q) refl), assumed-Built b ∙ i, refl, asserted-Built b)
  translated false ids n p t h i = cc

  pub translate-returns :
      (n : Node) (p : Problem B)
      → IsTranslatable n
      → IsIdle p
      → (e : B.Expr) × (q : Problem B) × (translate B n p ≡ ok (e, q))
        × IsIdle q
        × (q.softs ≡ p.softs)
        × (I.asserted (context_of B q) ≡ I.asserted (context_of B p))
  translate-returns n p (f, s) i =
      translated (is_scalar n) (λ v. occurs v n) n p s (visit-Translated B n p.store f) i

  pub make_assertion-returns :
      (n : Node) (p : Problem B)
      → IsTranslatable n
      → IsIdle p
      → (q : Problem B) × (make_assertion B n p ≡ ok q) × IsIdle q
  unfolding make_assertion
  make_assertion-returns n p t i =
      let (e, q, h, j, _, _) = translate-returns n p t i in
      let w : Problem B = with_context B (B.assertion (is_true e) (context_of B q)) q in
      (w, rw h (returned-ok I w), I.assumed-assertion (is_true e) (context_of B q) ∙ j)

  pub make_assumption-returns :
      (n : Node) (p : Problem B)
      → IsTranslatable n
      → IsIdle p
      → (q : Problem B) × (make_assumption B n p ≡ ok q) × IsIdle q
  unfolding make_assumption evaluated
  make_assumption-returns n p t i =
      let (e, q, h, j, _, _) = translate-returns n p t i in
      let (f, g) = evaluated B (is_true e) q.store.scope in
      let w : Problem B = record q {
        store = record (q.store) { scope = g };
        assumptions = q.assumptions ++ f ∷ [];
      } in
      (w, rw h (returned-ok I w), I.assumed-evaluate (is_true e) (context_of B q) ∙ j)

  pub assume_refs-returns :
      {M : Type 0} (pairs : List (ℕ × (M → Node))) (m : M) (p : Problem B)
      → All (λ pair. (m : M) → IsTranslatable (pair.1 m)) pairs
      → IsIdle p
      → (q : Problem B) × (assume_refs B pairs m p ≡ ok q) × IsIdle q
  unfolding assume_refs
  assume_refs-returns [] m p h i = (p, refl, i)
  assume_refs-returns (pair ∷ pairs) m p h i =
      let (q, e, j) = make_assumption-returns (pair.1 m) p (h.0 m) i in
      let (r, d, k) = assume_refs-returns pairs m q h.1 j in (r, rw e d, k)

  pub assert_hards-returns :
      (cs : List UserConstraint) (p : Problem B)
      → All (λ c. IsTranslatable c.expr) cs
      → IsIdle p
      → (q : Problem B) × (assert_hards B cs p ≡ ok q) × IsIdle q
  unfolding assert_hards
  assert_hards-returns [] p h i = (p, refl, i)
  assert_hards-returns (c ∷ cs) p h i =
      let (q, e, j) = make_assertion-returns c.expr p h.0 i in
      let (r, d, k) = assert_hards-returns cs q h.1 j in
      elim (Bool-cases (not c.soft && not c.cover)) [
        | inl t ↦ (r, rw (assert_hards, t) (rw e d), k)
        | inr f ↦
            let (r', d', k') = assert_hards-returns cs p h.1 i in (r', rw (assert_hards, f) d', k')
      ]
