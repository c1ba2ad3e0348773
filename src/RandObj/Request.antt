-- ===== src/RandObj/Request.antt =====
-- `request_rebuild` of crave/src/lib/ConstrainedRandom.cpp reaches every object above the one it is called
-- on, so that their generators gather the constraints again.
use mathlib.Core.Path.{subst}
use crave.Prelude.{
  ℕ, zero, suc, ◌<◌, ◌≡◌, ◌⊎◌, ◌↔◌, refl, sym, ◌∙◌, Bool, true, false, Option, none, some, ◌==◌,
  if◌then◌else◌, arith, Option-cases, inl, inr,
}
use crave.Prelude.Random.{Random}
use crave.Solver.MetaSmt.{Backend}
use crave.Generator.{Engines}
use crave.RandObj.{RandObj, Objects, mark, request_from, request_rebuild}

module _ (B : Backend) (M : Type 0) (R : Random (B.Expr)) (E : Engines M R.Rng) where
  abbrev pub Objs : Type 0
  Objs = Objects B M R E

  unfoldable pub parent_of : Objs → ℕ → Option ℕ
  parent_of objs p = (objs.object p).parent

  unfoldable pub is_due : Objs → ℕ → Bool
  is_due objs p = (objs.object p).needs_rebuild

  -- Parents are older.
  abbrev pub IsOrdered : Objs → Type 0
  IsOrdered objs = (p q : ℕ) → parent_of objs p ≡ some q → q < p

  -- The object with the rebuild flag put aside.
  abbrev pub content : Objs → ℕ → RandObj B M R E
  content objs p = record (objs.object p) { needs_rebuild = false }

  -- One object marked after the other.
  mark-parent : (p q : ℕ) (objs : Objs) → parent_of (mark B M R E p objs) q ≡ parent_of objs q
  unfolding mark parent_of
  mark-parent p q objs = ground arith

  mark-due :
      (p q : ℕ) (objs : Objs)
      → is_due (mark B M R E p objs) q ≡ (if p == q then true else is_due objs q)
  unfolding mark is_due
  mark-due p q objs = ground arith

  mark-content : (p q : ℕ) (objs : Objs) → content (mark B M R E p objs) q ≡ content objs q
  unfolding mark
  mark-content p q objs = ground arith

  mark-IsOrdered : (p : ℕ) (objs : Objs) → IsOrdered objs → IsOrdered (mark B M R E p objs)
  mark-IsOrdered p objs o q r e = o q r (sym (mark-parent p q objs) ∙ e)

-- The first object is the second one or stands above it.
pub data Above {B : Backend} {M : Type 0} {R : Random (B.Expr)} {E : Engines M R.Rng}
    (objs : Objs B M R E) : ℕ → ℕ → Type 0 where
  itself : {p : ℕ} → Above objs p p
  higher : {p q r : ℕ} → parent_of B M R E objs p ≡ some q → Above objs r q → Above objs r p

module _ (B : Backend) (M : Type 0) (R : Random (B.Expr)) (E : Engines M R.Rng) where
  Above-mark :
      (objs : Objs B M R E) (s : ℕ) {r p : ℕ} → Above objs r p → Above (mark B M R E s objs) r p
  Above-mark objs s itself = itself
  Above-mark objs s (higher e a) = higher (mark-parent B M R E s _ objs ∙ e) (Above-mark objs s a)

  marked_due :
      (p q : ℕ) (objs : Objs B M R E)
      → is_due B M R E objs q ≡ true
      → is_due B M R E (mark B M R E p objs) q ≡ true
  marked_due p q objs h = ground (arith, mark-due B M R E p q objs)

  marked_itself : (p : ℕ) (objs : Objs B M R E) → is_due B M R E (mark B M R E p objs) p ≡ true
  marked_itself p objs = ground (arith, mark-due B M R E p p objs)

  -- A step of `request_from`, by the parent.
  request_from-top :
      (fuel p : ℕ) (objs : Objs B M R E)
      → parent_of B M R E objs p ≡ none
      → request_from B M R E (suc fuel) p objs ≡ mark B M R E p objs
  unfolding request_from parent_of
  request_from-top fuel p objs e = rw (request_from, e) refl

  request_from-up :
      (fuel p q : ℕ) (objs : Objs B M R E)
      → parent_of B M R E objs p ≡ some q
      → request_from B M R E (suc fuel) p objs ≡ request_from B M R E fuel q (mark B M R E p objs)
  unfolding request_from parent_of
  request_from-up fuel p q objs e = rw (request_from, e) refl

  -- What is due stays due, and only the flags change.
  pub request_from-keeps :
      (fuel p q : ℕ) (objs : Objs B M R E)
      → (is_due B M R E objs q ≡ true → is_due B M R E (request_from B M R E fuel p objs) q ≡ true)
        × (content B M R E (request_from B M R E fuel p objs) q ≡ content B M R E objs q)
  unfolding request_from
  request_from-keeps zero p q objs = ((λ h. h), refl)
  request_from-keeps (suc fuel) p q objs = elim (Option-cases (parent_of B M R E objs p)) [
    | inl e ↦
        rw (request_from-top fuel p objs e)
          ((λ h. marked_due p q objs h), mark-content B M R E p q objs)
    | inr (s, e) ↦
        let (f, g) = request_from-keeps fuel s q (mark B M R E p objs) in
        rw (request_from-up fuel p s objs e)
          ((λ h. f (marked_due p q objs h)), g ∙ mark-content B M R E p q objs)
  ]

  -- The object that the loop starts at is due after it.
  pub request_from-itself :
      (fuel p : ℕ) (objs : Objs B M R E)
      → 0 < fuel
      → is_due B M R E (request_from B M R E fuel p objs) p ≡ true
  request_from-itself zero p objs l = ground arith
  request_from-itself (suc fuel) p objs l = elim (Option-cases (parent_of B M R E objs p)) [
    | inl e ↦ rw (request_from-top fuel p objs e) (marked_itself p objs)
    | inr (s, e) ↦
        rw (request_from-up fuel p s objs e)
          ((request_from-keeps fuel s p (mark B M R E p objs)).0 (marked_itself p objs))
  ]

  request_from-Above :
      (fuel p r : ℕ) (objs : Objs B M R E)
      → IsOrdered B M R E objs
      → p < fuel
      → Above objs r p
      → is_due B M R E (request_from B M R E fuel p objs) r ≡ true
  request_from-Above zero p r objs o l a = ground arith
  request_from-Above (suc fuel) p r objs o l itself =
      request_from-itself (suc fuel) p objs (omega arith)
  request_from-Above (suc fuel) p r objs o l (higher {q = q} e a) =
      rw (request_from-up fuel p q objs e) (
        request_from-Above fuel q r (mark B M R E p objs) (mark-IsOrdered B M R E p objs o)
          (omega (arith, o p q e)) (Above-mark objs p a))

  Above-unmark :
      (objs : Objs B M R E) (s : ℕ) {r p : ℕ} → Above (mark B M R E s objs) r p → Above objs r p
  Above-unmark objs s itself = itself
  Above-unmark objs s (higher e a) =
      higher (sym (mark-parent B M R E s _ objs) ∙ e) (Above-unmark objs s a)

  -- What one mark makes due is the object itself.
  marked_only :
      (p r : ℕ) (objs : Objs B M R E)
      → is_due B M R E (mark B M R E p objs) r ≡ true
      → (is_due B M R E objs r ≡ true) ⊎ (p ≡ r)
  marked_only p r objs h = ground (arith, mark-due B M R E p r objs)

  marked_Above :
      (p r : ℕ) (objs : Objs B M R E)
      → is_due B M R E (mark B M R E p objs) r ≡ true
      → (is_due B M R E objs r ≡ true) ⊎ Above objs r p
  marked_Above p r objs h = elim (marked_only p r objs h) [
    | inl d ↦ inl d
    | inr e ↦ inr (subst (λ q. Above objs q p) e itself)
  ]

  -- What is due after the loop was due, or is above its start.
  request_from-only :
      (fuel p r : ℕ) (objs : Objs B M R E)
      → is_due B M R E (request_from B M R E fuel p objs) r ≡ true
      → (is_due B M R E objs r ≡ true) ⊎ Above objs r p
  unfolding request_from
  request_from-only zero p r objs h = inl h
  request_from-only (suc fuel) p r objs h = elim (Option-cases (parent_of B M R E objs p)) [
    | inl e ↦
        marked_Above p r objs
          (subst (λ o. is_due B M R E o r ≡ true) (request_from-top fuel p objs e) h)
    | inr (s, e) ↦
        elim (request_from-only fuel s r (mark B M R E p objs)
          (subst (λ o. is_due B M R E o r ≡ true) (request_from-up fuel p s objs e) h)) [
            | inl d ↦ marked_Above p r objs d
            | inr a ↦ inr (higher e (Above-unmark objs p a))
          ]
  ]

  -- Where parents are older than their children, the objects that need a rebuild after
  -- `request_rebuild` are exactly those that needed one before, the object itself and every object
  -- above it; and nothing else changes of any object.
  pub request_rebuild-Above :
      (p : ℕ) (objs : Objs B M R E)
      → IsOrdered B M R E objs
      → ((r : ℕ)
          → (is_due B M R E (request_rebuild B M R E p objs) r ≡ true)
            ↔ ((is_due B M R E objs r ≡ true) ⊎ Above objs r p))
        × ((q : ℕ) → content B M R E (request_rebuild B M R E p objs) q ≡ content B M R E objs q)
  unfolding request_rebuild
  request_rebuild-Above p objs o = (
    (λ r. (
      request_from-only (suc p) p r objs,
      λ h. elim h [
        | inl d ↦ (request_from-keeps (suc p) p r objs).0 d
        | inr a ↦ request_from-Above (suc p) p r objs o (omega arith) a
      ],
    )),
    (λ q. (request_from-keeps (suc p) p q objs).1),
  )
