-- ===== src/VectorGenerator/Posed.antt =====
-- What crave/src/lib/VectorGenerator.cpp poses to the solver of a vector: the instances of the body of a
-- `foreach`, and the differences of the elements for `unique`.
use mathlib.Core.Path.{subst}
use crave.Prelude.{
  ℕ, zero, suc, ◌+◌, ◌^◌, ◌≤◌, ◌<◌, ◌≡◌, refl, ◌∙◌, sym, List, [], ◌∷◌, ◌++◌, Bool, true, false,
  Option, none, some, length, arith, if◌then◌else◌, All, All-append, Bool-cases, inl, inr,
}
use crave.Prelude.Result.{Result, ok, Returns, ◌>>=◌, Result-cases, >>=-Returns}
use crave.Prelude.Int.{ℤ}
use crave.Ir.{Node, binary, not_equal_opr}
use crave.Ir.Eval.Direct.{is_filled}
use crave.Ir.Replace.{Element, element_node, start_at, visit}
use crave.Ir.Replace.Reference.{instantiate, IsTyped}
use crave.Ir.Replace.Follows.{ids_of}
use crave.Ir.Replace.Access.{length-ids}
use crave.Ir.Replace.Sure.{is_sure, Small, instantiate-Small}
use crave.Ir.Replace.Correct.{Yields, visit-Yields}
use crave.Constraint.{UserConstraint, is_unique}
use crave.Solver.MetaSmt.{Backend}
use crave.Solver.Problem.{Problem}
use crave.Solver.Translation.{is_scalar}
use crave.Generator.Ready.{IsTranslatable}
use crave.VectorGenerator.Ground.{is_subscripted, IsGround, instantiate-IsGround}
use crave.VectorGenerator.Build.{
  pose, pose_result, each_index, differ_from, all_differ, build_constraint,
}

-- The instance at an index, if there is one, before others.
abbrev before : Option Node → List Node → List Node
before o ns = elim o [ none ↦ ns | some m ↦ m ∷ ns ]

-- The instances of the body at `k` indices from `i` on.
unfoldable pub instances : List ℕ → ℕ → ℕ → Node → Result (List Node)
instances ids zero i n = ok []
instances ids (suc k) i n = do
  (o, x) ← instantiate ids i n
  ns ← instances ids k (suc i) n
  ok (before o ns)

-- The differences of an element from others.
unfoldable pub differences_from : Element → List Element → List Node
differences_from e [] = []
differences_from e (f ∷ fs) =
    binary not_equal_opr (element_node e) (element_node f) ∷ differences_from e fs

-- Each element differs from each one that stands behind it.
unfoldable pub differences : List Element → List Node
differences [] = []
differences (e ∷ es) = differences_from e es ++ differences es

-- The body is typed, no vector stands in it without an access, and its subscripts are defined at
-- each index below the size; nothing is asked of a constraint that is unique.
abbrev pub IsFit : (ℕ → Option Node) → ℕ → UserConstraint → Type 0
IsFit σ size c =
    is_unique c ≡ false
    → IsTyped σ c.expr
      × (is_subscripted c.expr ≡ true)
      × ((i : ℕ) → i < size → is_sure i c.expr ≡ true)

-- What is posed for a constraint.
unfoldable pub nodes : ℕ → UserConstraint → List Element → Result (List Node)
nodes size c es = if is_unique c then ok (differences es) else instances (ids_of es) size 0 c.expr

differences_from-Translatable :
    (e : Element) (fs : List Element) → All IsTranslatable (differences_from e fs)
unfolding differences_from is_filled is_scalar
differences_from-Translatable e [] = tt
differences_from-Translatable e (f ∷ fs) = ((refl, refl), differences_from-Translatable e fs)

differences-Translatable : (es : List Element) → All IsTranslatable (differences es)
unfolding differences
differences-Translatable [] = tt
differences-Translatable (e ∷ es) =
    All-append IsTranslatable (differences_from e es) (differences es)
      (differences_from-Translatable e es) (differences-Translatable es)

translatable :
    (b : Bool) (m : Node) (x : ℤ) → b ≡ true → IsGround b (ok (some m, x)) → IsTranslatable m
unfolding IsGround
translatable b m x e (f, s) = (f, s ∙ e)

before-Translatable :
    (o : Option Node) (x : ℤ) (b : Bool) (ns : List Node)
    → b ≡ true
    → IsGround b (ok (o, x))
    → All IsTranslatable ns
    → All IsTranslatable (before o ns)
before-Translatable none x b ns e g h = h
before-Translatable (some m) x b ns e g h = (translatable b m x e g, h)

instances-returns :
    (ids : List ℕ) (k i : ℕ) (n : Node)
    → i + k ≤ length ids
    → length ids < 2 ^ 31
    → is_subscripted n ≡ true
    → ((j : ℕ) → j < length ids → is_sure j n ≡ true)
    → Returns (instances ids k i n) (All IsTranslatable)
unfolding instances Small
instances-returns ids zero i n l b s h = ([], refl, tt)
instances-returns ids (suc k) i n l b s h =
    let ((o, x), e, z) = instantiate-Small ids i n (omega arith) (h i (omega arith)) in
    let (ns, e', a) = instances-returns ids k (suc i) n (omega arith) b s h in
    (
      before o ns,
      rw e (rw e' refl),
      before-Translatable o x (is_subscripted n) ns s
          (subst (IsGround (is_subscripted n)) e (instantiate-IsGround ids i n)) a,
    )

visit-Yields-of :
    (σ : ℕ → Option Node) (n : Node) (es : List Element) (ids : List ℕ) (i : ℕ)
    → IsTyped σ n
    → 0 < length ids
    → ids_of es ≡ ids
    → Yields ids (instantiate ids i n) (visit n (start_at es i))
visit-Yields-of σ n [] [] i t l e = absurd (omega arith)
visit-Yields-of σ n [] (k ∷ ids) i t l e = cc
visit-Yields-of σ n (v ∷ vs) ids i t l e =
    subst (λ ks. Yields ks (instantiate ks i n) (visit n (start_at (v ∷ vs) i))) e
      (visit-Yields σ n v vs i t)

module _ (B : Backend) where
  -- The expressions are posed one after the other.
  unfoldable pub pose_all : Bool → List Node → Problem B → Result (Problem B)
  pose_all soft [] p = ok p
  pose_all soft (n ∷ ns) p = do q ← pose B soft n p; pose_all soft ns q

  pose_all-append :
      (soft : Bool) (ms ns : List Node) (p : Problem B)
      → pose_all soft (ms ++ ns) p ≡ (pose_all soft ms p >>= λ q. pose_all soft ns q)
  unfolding pose_all
  pose_all-append soft [] ns p = refl
  pose_all-append soft (m ∷ ms) ns p = elim (Result-cases (pose B soft m p)) [
    | inl (q, e) ↦ rw e (pose_all-append soft ms ns q)
    | inr (fault, e) ↦ rw e refl
  ]

  differ_from-poses :
      (soft : Bool) (e : Element) (fs : List Element) (p : Problem B)
      → differ_from B soft e fs p ≡ pose_all soft (differences_from e fs) p
  unfolding differ_from pose_all differences_from
  differ_from-poses soft e [] p = refl
  differ_from-poses soft e (f ∷ fs) p =
      elim (Result-cases (pose B soft (binary not_equal_opr (element_node e) (element_node f)) p)) [
        | inl (q, h) ↦ rw h (differ_from-poses soft e fs q)
        | inr (fault, h) ↦ rw h refl
      ]

  all_differ-poses :
      (soft : Bool) (es : List Element) (p : Problem B)
      → all_differ B soft es p ≡ pose_all soft (differences es) p
  unfolding all_differ pose_all differences
  all_differ-poses soft [] p = refl
  all_differ-poses soft (e ∷ es) p =
      rw (pose_all-append soft (differences_from e es) (differences es) p) (
        rw (differ_from-poses soft e es p)
          (elim (Result-cases (pose_all soft (differences_from e es) p)) [
            | inl (q, h) ↦ rw h (all_differ-poses soft es q)
            | inr (fault, h) ↦ rw h refl
          ]))

  -- The loop over the indices poses the instances, and keeps the ids of the elements.
  abbrev PosesFrom :
      List ℕ → Bool → List Node → Problem B → Result (List Element × Problem B) → Type 0
  PosesFrom ids soft ns p r =
      (fs : List Element) × (ids_of fs ≡ ids) × (r ≡ (pose_all soft ns p >>= λ q. ok (fs, q)))

  round-Poses :
      (c : UserConstraint) (k i : ℕ) (es : List Element) (p : Problem B) (ids : List ℕ)
      (ns : List Node) (o : Option Node) (x : ℤ)
      → ids_of es ≡ ids
      → Yields ids (ok (o, x)) (visit c.expr (start_at es i))
      → ((gs : List Element) (q : Problem B)
          → ids_of gs ≡ ids
          → PosesFrom ids c.soft ns q (each_index B k (suc i) c gs q))
      → PosesFrom ids c.soft (before o ns) p (each_index B (suc k) i c es p)
  unfolding each_index Yields pose_result pose_all
  round-Poses c k i es p ids ns none x h (t, e, (b, d)) rest =
      let (fs, f, w) = rest t.memory.variables p d in (fs, f, rw e (rw b w))
  round-Poses c k i es p ids ns (some m) x h (t, e, (b, l, d)) rest =
      elim (Result-cases (pose B c.soft m p)) [
        | inl (q, z) ↦
            let (fs, f, w) = rest t.memory.variables q d in (fs, f, rw e (rw b (rw l (rw z w))))
        | inr (fault, z) ↦ (es, h, rw e (rw b (rw l (rw z refl))))
      ]

  each_index-Poses :
      (σ : ℕ → Option Node) (c : UserConstraint) (k i : ℕ) (es : List Element) (p : Problem B)
      (ids : List ℕ) (ns : List Node)
      → IsTyped σ c.expr
      → i + k ≤ length ids
      → ids_of es ≡ ids
      → instances ids k i c.expr ≡ ok ns
      → PosesFrom ids c.soft ns p (each_index B k i c es p)
  unfolding each_index pose_all instances
  each_index-Poses σ c zero i es p ids ns t l h e =
      let none_left : [] ≡ ns = cc in (es, h, rw (← none_left) refl)
  each_index-Poses σ c (suc k) i es p ids ns t l h e =
      let ((o, x), e1, rest) = >>=-Returns (instantiate ids i c.expr) _ e in
      let (ms, e2, last) = >>=-Returns (instances ids k (suc i) c.expr) _ rest in
      let all_of : before o ms ≡ ns = cc in
      rw⁻¹ all_of (
        round-Poses c k i es p ids ms o x h
          (subst (λ r. Yields ids r (visit c.expr (start_at es i))) e1
            (visit-Yields-of σ c.expr es ids i t (omega arith) h))
          (λ gs q g. each_index-Poses σ c k (suc i) gs q ids ms t (omega arith) g e2))

  pub pose_constraint :
      (σ : ℕ → Option Node) (c : UserConstraint) (size : ℕ) (es : List Element) (p : Problem B)
      → IsFit σ size c
      → length es ≡ size
      → size < 2 ^ 31
      → (ns : List Node) × (nodes size c es ≡ ok ns)
        × All IsTranslatable ns
        × PosesFrom (ids_of es) c.soft ns p (build_constraint B size c es p)
  unfolding nodes build_constraint
  pose_constraint σ c size es p f l b =
      let long : length (ids_of es) ≡ size = sym (length-ids es (ids_of es) refl) ∙ l in
      elim (Bool-cases (is_unique c)) [
        | inl u ↦ rw u (
          differences es,
          refl,
          differences-Translatable es,
          (es, refl, rw (all_differ-poses c.soft es p) refl),
        )
        | inr u ↦
            let (t, s, h) = f u in
            let (ns, e, a) =
              instances-returns (ids_of es) size 0 c.expr (omega (arith, long))
                (omega (arith, long)) s (λ j k. h j (omega (arith, long))) in
            rw u (
              ns,
              e,
              a,
              each_index-Poses σ c size 0 es p (ids_of es) ns t (omega (arith, long)) refl e,
            )
      ]
