-- ===== src/Constraint/Manager/Make.antt =====
-- `makeConstraint` of crave/src/lib/ConstraintManager.cpp, on every branch, with the invariant of
-- Constraint/Manager/Laws.
use Prim.Native.String.{String, ◌++◌ as append}
use text.Mathlib.Text.{◌==◌ as str_eq}
use text.Mathlib.TextEquality.{eq_iff}
use text.Mathlib.TextPositions.{eq_refl}
use crave.Prelude.{
  ℕ, ◌≡◌, refl, inl, inr, [], ◌∷◌, ◌++◌, Bool, true, false, not, ◌&&◌, ◌||◌, none, some, arith,
  All-map, All-append, Bool-cases, Option-cases,
}
use crave.Prelude.Result.{
  Fault, Result, ok, err, runtime_error, assertion, throw_if, assert_that, ◌>>=◌, ◌>>◌, >>=-Returns,
  >>-Returns,
}
use mathlib.Core.Path.{subst}
use crave.Ir.{Node}
use crave.Ir.Support.{support_set}
use crave.Ir.Complexity.{is_scalar, complexity, get_complexity_estimation-exact}
use crave.Constraint.{UserConstraint, Kind, plain, vector}
use crave.Constraint.Manager.{
  World, is_constraint_enabled, insert_constraint, has_key, make_constraint, complexity_of, kind_of,
  is_vector_kind, new_constraint,
}
use crave.Constraint.Manager.Laws.{IsWellFormed}

module _ (name : String) (c : UserConstraint) (w : World) where
  pub insert_constraint-IsWellFormed :
      IsWellFormed w
      → c.name ≡ name
      → w.mng.constr_map name ≡ none
      → IsWellFormed (insert_constraint name c w)
  unfolding insert_constraint
  insert_constraint-IsWellFormed v n fresh = record {
    allocated = λ key p e. ground (arith, v.allocated key p);
    named = λ key p e. ground (arith, v.allocated key p, v.named key p, eq_iff name key);
    listed =
        All-append _ w.mng.constraints (w.heap.next ∷ [])
          (All-map _ _ (λ q h. (omega arith, ground (arith, h, eq_iff name (w.heap.cell q).name)))
            w.mng.constraints v.listed)
          ((omega arith, ground (arith, eq_refl name)), tt);
  }

-- What a new constraint brings: it is found under its name, is enabled, has the given expression,
-- the ids that this reads and the given flags, and stands last in the list; no other key answers
-- differently, and the manager is marked as changed.
pub record IsMade (name : String) (c_id : ℕ) (n : Node) (soft cover : Bool) (w : World) (p : ℕ)
    (w' : World) : Type 0 where
  pub valid : IsWellFormed w'
  pub fresh : has_key name w ≡ false
  pub found : w'.mng.constr_map name ≡ some p
  pub id : (w'.heap.cell p).id ≡ c_id
  pub expr : (w'.heap.cell p).expr ≡ n
  pub support : (w'.heap.cell p).support_vars ≡ support_set n
  pub flags : ((w'.heap.cell p).soft ≡ soft) × ((w'.heap.cell p).cover ≡ cover)
  pub enabled : is_constraint_enabled name w' ≡ true
  pub others :
      (j : String) → str_eq name j ≡ false → is_constraint_enabled j w' ≡ is_constraint_enabled j w
  pub last : w'.mng.constraints ≡ w.mng.constraints ++ p ∷ []
  pub flagged : w'.mng.changed ≡ true

insert-IsMade :
    (name : String) (c_id : ℕ) (n : Node) (soft cover : Bool) (w : World) (k : ℕ)
    → IsWellFormed w
    → has_key name w ≡ false
    → IsMade name c_id n soft cover w w.heap.next
        (insert_constraint name (new_constraint name c_id n soft cover k) w)
unfolding insert_constraint new_constraint is_constraint_enabled
insert-IsMade name c_id n soft cover w k v fresh = record {
  valid =
      insert_constraint-IsWellFormed name (new_constraint name c_id n soft cover k) w v refl
        (ground arith);
  fresh = fresh;
  found = ground (arith, eq_refl name);
  id = ground arith;
  expr = ground arith;
  support = ground arith;
  flags = (ground arith, ground arith);
  enabled = ground (arith, eq_refl name);
  others = λ j d. elim (Option-cases (w.mng.constr_map j)) [
    | inl absent ↦ ground arith
    | inr (q, f) ↦ ground (arith, v.allocated j q f)
  ];
  last = refl;
  flagged = refl;
}

not_thrown : (b : Bool) (m : String) → throw_if b m ≡ ok tt → b ≡ false
not_thrown false m h = refl
not_thrown true m h = cc

-- A call that returns has made its constraint.
pub make_constraint-IsMade :
    (name : String) (c_id : ℕ) (n : Node) (soft cover : Bool) (w : World) (p : ℕ) (w' : World)
    → IsWellFormed w
    → make_constraint name c_id n soft cover w ≡ ok (p, w')
    → IsMade name c_id n soft cover w p w'
unfolding make_constraint
make_constraint-IsMade name c_id n soft cover w p w' v e =
    let (t, e1) = >>-Returns (throw_if (has_key name w) _) _ e in
    let (_, e2) = >>-Returns (assert_that (not soft || not cover)) _ e1 in
    let (_, e3) = >>-Returns (assert_that (not (is_vector_kind (kind_of n)) || not cover)) _ e2 in
    let (k, _, e4) = >>=-Returns (complexity_of (kind_of n) n) _ e3 in
    let q : ◌≡◌ {A = ℕ × World}
        (w.heap.next, insert_constraint name (new_constraint name c_id n soft cover k) w) (p, w') =
      cc e4 in
    subst (λ t. IsMade name c_id n soft cover w t.0 t.1) q
      (insert-IsMade name c_id n soft cover w k v (not_thrown (has_key name w) _ t))

complexity_of-ok :
    (k : Kind) (n : Node)
    → (is_vector_kind k || is_scalar n) ≡ true
    → (x : ℕ) × (complexity_of k n ≡ ok x)
unfolding complexity_of
complexity_of-ok plain n h = (complexity n, (get_complexity_estimation-exact n).0 h)
complexity_of-ok (vector u) n h = (0, refl)

complexity_of-err :
    (k : Kind) (n : Node)
    → (is_vector_kind k || is_scalar n) ≡ false
    → (f : Fault) × (complexity_of k n ≡ err f)
unfolding complexity_of
complexity_of-err plain n h =
    let (m, e) = (get_complexity_estimation-exact n).1 h in (runtime_error m, e)
complexity_of-err (vector u) n h = cc

-- A chain of three checks and one computation that may fail.
module _ {A : Type 0} (a b c d : Bool) (s : String) (m : Result ℕ) (k : ℕ → A) where
  abbrev checked : Result A
  checked = throw_if a s >> (assert_that b >> (assert_that c >> (m >>= λ x. ok (k x))))

  checked-ok :
      (d ≡ true → (x : ℕ) × (m ≡ ok x))
      → (not a && (b && (c && d))) ≡ true
      → (x : ℕ) × (checked ≡ ok (k x))
  checked-ok run h =
      let (x, e) = run (ground arith) in
      let ha : a ≡ false = ground arith in
      let hb : b ≡ true = ground arith in
      let hc : c ≡ true = ground arith in (x, rw (ha, hb, hc, e) refl)

  checked-err :
      (d ≡ false → (f : Fault) × (m ≡ err f))
      → (not a && (b && (c && d))) ≡ false
      → (f : Fault) × (checked ≡ err f)
  checked-err fail h = elim (Bool-cases a) [
    | inl ha ↦ (runtime_error s, rw ha refl)
    | inr ha ↦ elim (Bool-cases b) [
      | inr hb ↦ (assertion, rw ha (rw hb refl))
      | inl hb ↦ elim (Bool-cases c) [
        | inr hc ↦ (assertion, rw ha (rw hb (rw hc refl)))
        | inl hc ↦ let (f, e) = fail (ground arith) in (f, rw ha (rw hb (rw hc (rw e refl))))
      ]
    ]
  ]

-- What `makeConstraint` accepts: a new name; a constraint that is not both soft and a cover; no
-- cover over vectors; and in a plain constraint nothing that belongs to vectors.
unfoldable pub is_accepted : String → Node → Bool → Bool → World → Bool
is_accepted name n soft cover w =
    not (has_key name w)
    && ((not soft || not cover)
        && ((not (is_vector_kind (kind_of n)) || not cover)
            && (is_vector_kind (kind_of n) || is_scalar n)))

-- A call that is accepted returns and has made its constraint; any other throws or stops at an
-- assertion.
pub make_constraint-exact :
    (name : String) (c_id : ℕ) (n : Node) (soft cover : Bool) (w : World)
    → IsWellFormed w
    → (is_accepted name n soft cover w ≡ true
        → (p : ℕ) × (w' : World) × (make_constraint name c_id n soft cover w ≡ ok (p, w'))
          × IsMade name c_id n soft cover w p w')
      × (is_accepted name n soft cover w ≡ false
          → (f : Fault) × (make_constraint name c_id n soft cover w ≡ err f))
unfolding make_constraint is_accepted
make_constraint-exact name c_id n soft cover w v =
    let k : ℕ → ℕ × World =
      λ x. (w.heap.next, insert_constraint name (new_constraint name c_id n soft cover x) w) in
    let a = has_key name w in
    let b = not soft || not cover in
    let c = not (is_vector_kind (kind_of n)) || not cover in
    let d = is_vector_kind (kind_of n) || is_scalar n in
    let s = append name "Constraint already exists." in
    let m = complexity_of (kind_of n) n in
    (
      λ h.
          let (x, e) = checked-ok a b c d s m k (complexity_of-ok (kind_of n) n) h in
          (
            (k x).0,
            (k x).1,
            e,
            make_constraint-IsMade name c_id n soft cover w (k x).0 (k x).1 v e,
          ),
      λ h. checked-err a b c d s m k (complexity_of-err (kind_of n) n) h,
    )
