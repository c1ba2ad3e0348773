-- ===== src/Prelude/IntSet.antt =====
-- `std::set<int>` of variable ids: a strictly ascending list, with the operations that the program
-- uses of it. Ids are counted up from 1, so they are numbers.
use crave.Prelude.Tests.{ltb, ◌==◌, if◌then◌else◌, Bool-cases}
use Prim.Native.Nat.{ℕ, ◌<◌}
use mathlib.Core.Path.{◌≡◌, refl}
use mathlib.Core.Logic.{inl, inr}
use mathlib.Core.Bool.{Bool, true, false, ◌||◌}
use mathlib.Core.List.{List, [], ◌∷◌}
use native.Mathlib.Omega.{arith}
use crave.Prelude.Lists.{All, All-map}

abbrev pub IntSet : Type 0
IntSet = List ℕ

-- `find(x) != end()`
unfoldable pub contains : ℕ → IntSet → Bool
contains x [] = false
contains x (y ∷ ys) = x == y || contains x ys

-- `insert(x)`
unfoldable pub insert : ℕ → IntSet → IntSet
insert x [] = x ∷ []
insert x (y ∷ ys) = if ltb x y then x ∷ y ∷ ys else if x == y then y ∷ ys else y ∷ insert x ys

-- `insert(first, last)`
unfoldable pub insert_all : IntSet → IntSet → IntSet
insert_all [] s = s
insert_all (x ∷ xs) s = insert_all xs (insert x s)

-- `std::set_intersection` of two sets, in the order of the first
unfoldable pub intersection : IntSet → IntSet → IntSet
intersection [] s = []
intersection (x ∷ xs) s = let rest = intersection xs s in if contains x s then x ∷ rest else rest

abbrev pub is_empty {ℓ} : {A : Type ℓ} → List A → Bool
is_empty [] = true
is_empty (_ ∷ _) = false

-- Strictly ascending, as a `std::set` keeps its elements.
abbrev pub IsAscending : IntSet → Type 0
IsAscending [] = Unit
IsAscending (x ∷ xs) = All (λ y. x < y) xs × IsAscending xs

-- No element in both.
abbrev pub Disjoint : IntSet → IntSet → Type 0
Disjoint a b = (v : ℕ) → contains v a ≡ true → contains v b ≡ false

pub contains-insert : (v x : ℕ) (s : IntSet) → contains v (insert x s) ≡ (v == x || contains v s)
unfolding contains insert
contains-insert v x [] = refl
contains-insert v x (y ∷ ys) = ground (arith, contains-insert v x ys)

pub contains-insert_all :
    (v : ℕ) (xs s : IntSet) → contains v (insert_all xs s) ≡ (contains v xs || contains v s)
unfolding contains insert_all
contains-insert_all v [] s = refl
contains-insert_all v (x ∷ xs) s =
    ground (arith, contains-insert_all v xs (insert x s), contains-insert v x s)

-- The intersection is empty exactly if the sets are disjoint.
pub intersection-empty_sound : (a b : IntSet) → is_empty (intersection a b) ≡ true → Disjoint a b
unfolding intersection contains
intersection-empty_sound [] b h v m = cc
intersection-empty_sound (x ∷ xs) b h v m =
    ground (arith, intersection-empty_sound xs b, intersection-empty_sound xs b _ v)

pub intersection-nonempty_shared :
    (a b : IntSet)
    → is_empty (intersection a b) ≡ false
    → (v : ℕ) × (contains v a ≡ true) × (contains v b ≡ true)
unfolding intersection contains
intersection-nonempty_shared [] b h = cc
intersection-nonempty_shared (x ∷ xs) b h = elim (Bool-cases (contains x b)) [
  | inl here ↦ (x, ground arith, here)
  | inr away ↦
      let (v, p, q) = intersection-nonempty_shared xs b (ground arith) in (v, ground arith, q)
]

insert-bound : (b x : ℕ) (s : IntSet) → b < x → All (λ y. b < y) s → All (λ y. b < y) (insert x s)
unfolding insert
insert-bound b x [] h a = (h, tt)
insert-bound b x (y ∷ ys) h a = ground (arith, insert-bound b x ys)

-- `insert` keeps the order, and so no value stands twice.
pub insert-IsAscending : (x : ℕ) (s : IntSet) → IsAscending s → IsAscending (insert x s)
unfolding insert
insert-IsAscending x [] h = (tt, tt)
insert-IsAscending x (y ∷ ys) h =
    let weaker = λ (p : x < y). All-map (λ z. y < z) (λ z. x < z) (λ z q. omega arith) ys h.0 in
    ground (arith, weaker, insert-bound y x ys, insert-IsAscending x ys)

pub insert_all-IsAscending : (xs s : IntSet) → IsAscending s → IsAscending (insert_all xs s)
unfolding insert_all
insert_all-IsAscending [] s h = h
insert_all-IsAscending (x ∷ xs) s h =
    insert_all-IsAscending xs (insert x s) (insert-IsAscending x s h)
