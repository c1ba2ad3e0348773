-- ===== src/Constraint/VectorId.antt =====
-- `getVectorId` of crave/src/lib/UserVectorConstraint.cpp, for the support set that `makeConstraint`
-- gives a constraint.
use Prim.Native.String.{String}
use crave.Prelude.{ℕ, ◌≤◌, ◌<◌, ◌≡◌, [], ◌∷◌, Bool, true, ◌==◌, arith, All, Bool-cases, inl, inr}
use crave.Prelude.Result.{Result, ok, err, undefined}
use crave.Prelude.IntSet.{IntSet, contains, IsAscending}
use crave.Ir.{Node}
use crave.Ir.Support.{support_set, occurs, support_set-exact}
use crave.Constraint.{get_vector_id}
use crave.Constraint.Manager.{new_constraint}

above : (x : ℕ) (s : IntSet) (w : ℕ) → All (λ y. x < y) s → contains w s ≡ true → x < w
unfolding contains
above x [] w h m = cc
above x (y ∷ ys) w h m = elim (Bool-cases (w == y)) [
  | inl same ↦ ground (arith, h.0)
  | inr other ↦ above x ys w h.1 (ground arith)
]

least_of :
    (s : IntSet) (v : ℕ)
    → IsAscending s
    → elim s as (λ s. Result ℕ) [ [] ↦ err undefined | x ∷ _ ↦ ok x ] ≡ ok v
    → (contains v s ≡ true) × ((w : ℕ) → contains w s ≡ true → v ≤ w)
unfolding contains
least_of [] v a e = cc
least_of (x ∷ xs) v a e =
    let q : x ≡ v = cc e in
    (
      ground arith,
      λ w m. elim (Bool-cases (w == x)) [
        | inl same ↦ ground arith
        | inr other ↦ let l = above x xs w a.0 (ground arith) in omega arith
      ],
    )

-- The vector id of a new constraint is the least id that its expression reads, be it that of a
-- vector or of a variable.
pub get_vector_id-least :
    (name : String) (c_id : ℕ) (n : Node) (soft cover : Bool) (complexity v : ℕ)
    → get_vector_id (new_constraint name c_id n soft cover complexity) ≡ ok v
    → (occurs v n ≡ true) × ((w : ℕ) → occurs w n ≡ true → v ≤ w)
unfolding get_vector_id new_constraint
get_vector_id-least name c_id n soft cover complexity v e =
    let (a, x) = support_set-exact n in
    let (m, l) = least_of (support_set n) v a e in
    (ground (arith, x v), λ w o. l w (ground (arith, x w)))
