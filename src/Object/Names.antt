-- ===== src/Object/Names.antt =====
-- How far the names in crave/src/lib/experimental/Object.cpp tell the children of a parent apart.
use Prim.Native.String.{String, len, slice, ◌++◌ as append}
use text.Mathlib.TextEquality.{eq_iff}
use text.Mathlib.TextPositions.{len-append, slice-append_right}
use mathlib.Core.List.{Memᴰ}
use mathlib.Core.Path.{subst}
use crave.Prelude.{
  ℕ, ◌+◌, ◌%◌, ◌^◌, ◌<◌, ◌≡◌, ◌≢◌, refl, sym, ap, ◌∙◌, List, [], ◌∷◌, ◌++◌, false, Option, none,
  some, ◌==◌, arith, length, Bool-cases, inl, inr, All, All-map, Pairs, ◌≤◌,
}
use crave.Object.{Child, Parent, assign, remove_all, remove_child, attach}

assign-here :
    (key : String) (value : Option ℕ) (m : String → Option ℕ) → assign key value m key ≡ value
assign-here key value m = rw ((eq_iff key key).1 refl) refl

-- The children that remain.
remove_all-Mem :
    (id : ℕ) (c : Child) (cs : List Child)
    → Memᴰ c cs
    → (c.id == id) ≡ false
    → Memᴰ c (remove_all id cs)
unfolding remove_all
remove_all-Mem id c [] m h = elim m [ ]
remove_all-Mem id c (d ∷ cs) (Memᴰ.head e) h = rw⁻¹ e (rw h (Memᴰ.head refl))
remove_all-Mem id c (d ∷ cs) (Memᴰ.tail m) h = elim (Bool-cases (d.id == id)) [
  | inl y ↦ rw (remove_all, y) (remove_all-Mem id c cs m h)
  | inr n ↦ rw (remove_all, n) (Memᴰ.tail (remove_all-Mem id c cs m h))
]

behind : (c : Child) (cs : List Child) → Memᴰ c (cs ++ c ∷ [])
behind c [] = Memᴰ.head refl
behind c (d ∷ cs) = Memᴰ.tail (behind c cs)

in_front : (c : Child) (cs ds : List Child) → Memᴰ c cs → Memᴰ c (cs ++ ds)
in_front c [] ds m = elim m [ ]
in_front c (d ∷ cs) ds (Memᴰ.head e) = Memᴰ.head e
in_front c (d ∷ cs) ds (Memᴰ.tail m) = Memᴰ.tail (in_front c cs ds m)

-- The removal of a child of which two have been made leaves the counter at 1.
removed-count :
    (c : Child) (p : Parent)
    → p.local_name_map c.orig_name ≡ some 2
    → (remove_child c p).local_name_map c.orig_name ≡ some 1
unfolding remove_child
removed-count c p e = rw e (assign-here c.orig_name (some 1) p.local_name_map)

kept :
    (first second : Child) (p : Parent)
    → Memᴰ second p.children
    → (second.id == first.id) ≡ false
    → Memᴰ second (remove_child first p).children
unfolding remove_child
kept first second p m h = remove_all-Mem first.id second p.children m h

module _ (to_string : ℕ → String) where
  attach-first :
      (id : ℕ) (orig : String) (p : Parent)
      → p.local_name_map orig ≡ none
      → ((attach to_string id orig p).0.orig_name ≡ orig)
        × ((attach to_string id orig p).0.id ≡ id)
        × ((attach to_string id orig p).1.local_name_map orig ≡ some 1)
  unfolding attach
  attach-first id orig p e = rw (attach, e) (refl, refl, assign-here orig (some 1) p.local_name_map)

  attach-next :
      (id n : ℕ) (orig : String) (p : Parent)
      → p.local_name_map orig ≡ some n
      → ((attach to_string id orig p).0.name ≡ append orig (to_string n))
        × ((attach to_string id orig p).0.id ≡ id)
        × ((attach to_string id orig p).1.local_name_map orig ≡ some ((n + 1) % 2 ^ 32))
        × Memᴰ (attach to_string id orig p).0 (attach to_string id orig p).1.children
        × ((c : Child) → Memᴰ c p.children → Memᴰ c (attach to_string id orig p).1.children)
  unfolding attach
  attach-next id n orig p e =
      rw (attach, e)
        (
          refl,
          refl,
          assign-here orig _ p.local_name_map,
          behind _ p.children,
          (λ c m. in_front c p.children _ m),
        )

  -- Two children of the same name are made, the first one is destroyed, and a third one is made:
  -- the second and the third child, and the parent.
  unfoldable pub make_again : ℕ → ℕ → ℕ → String → Parent → Child × Child × Parent
  make_again i j k orig p =
      let (first, p1) = attach to_string i orig p in
      let (second, p2) = attach to_string j orig p1 in
      let (third, p3) = attach to_string k orig (remove_child first p2) in (second, third, p3)

  -- For every name that a parent has not given yet: of two children made with it, the first is
  -- destroyed and a third is made; then the second and the third child have the same name, while both
  -- are children of the parent.
  pub make_again-clash :
      (i j k : ℕ) (orig : String) (p : Parent)
      → p.local_name_map orig ≡ none
      → (j == i) ≡ false
      → ((make_again i j k orig p).1.name ≡ (make_again i j k orig p).0.name)
        × Memᴰ (make_again i j k orig p).0 (make_again i j k orig p).2.children
        × Memᴰ (make_again i j k orig p).1 (make_again i j k orig p).2.children
  unfolding make_again
  make_again-clash i j k orig p e d =
      let (first, p1) = attach to_string i orig p in
      let (second, p2) = attach to_string j orig p1 in
      let (o, fid, m1) = attach-first i orig p e in
      let (n2, sid, m2, in2, _) = attach-next j 1 orig p1 m1 in
      let left = remove_child first p2 in
      let l : left.local_name_map orig ≡ some 1 =
        subst (λ s. left.local_name_map s ≡ some 1) o (removed-count first p2 (rw o m2)) in
      let (n3, _, _, in3, more) = attach-next k 1 orig left l in
      let stays : Memᴰ second left.children = kept first second p2 in2 (rw (sid, fid) d) in
      (n3 ∙ sym n2, more second stays, in3)

-- A text before two others can be taken away.
append-cancel : (s t u : String) → append s t ≡ append s u → t ≡ u
append-cancel s t u e =
    let l : len t ≡ len u = omega (arith, len-append s t, len-append s u, ap len e) in
    sym (slice-append_right s t)
    ∙ ap (λ x. slice x (len s) (len s + len t)) e
    ∙ ap (λ n. slice (append s u) (len s) (len s + n)) l
    ∙ slice-append_right s u

-- What is documented of `std::to_string`: different numbers have different texts, which are not empty.
abbrev pub IsNumeral : (ℕ → String) → Type 0
IsNumeral to_string =
    ((m n : ℕ) → to_string m ≡ to_string n → m ≡ n) × ((m : ℕ) → 0 < len (to_string m))

module _ (to_string : ℕ → String) where
  -- Children made one after the other with the same name.
  unfoldable pub make_all : List ℕ → String → Parent → List Child × Parent
  make_all [] orig p = ([], p)
  make_all (id ∷ ids) orig p =
      let (c, q) = attach to_string id orig p in let (cs, r) = make_all ids orig q in (c ∷ cs, r)

  -- The name has a number from `n` on behind it.
  abbrev IsFrom : String → ℕ → Child → Type 0
  IsFrom orig n c = (m : ℕ) × (n ≤ m) × (c.name ≡ append orig (to_string m))

  abbrev pub HasOtherName : Child → Child → Type 0
  HasOtherName c d = c.name ≢ d.name

  numbered :
      (ids : List ℕ) (orig : String) (n : ℕ) (p : Parent)
      → IsNumeral to_string
      → p.local_name_map orig ≡ some n
      → n + length ids < 2 ^ 32
      → All (IsFrom orig n) (make_all ids orig p).0 × Pairs HasOtherName (make_all ids orig p).0
  unfolding make_all
  numbered [] orig n p i e l = (tt, tt)
  numbered (id ∷ ids) orig n p i e l =
      let (c, q) = attach to_string id orig p in
      let (nm, _, m, _, _) = attach-next to_string id n orig p e in
      let m' : q.local_name_map orig ≡ some (n + 1) = m ∙ ap some (omega (arith, l)) in
      let (a, b) = numbered ids orig (n + 1) q i m' (omega (arith, l)) in
      (
        (
          (n, omega arith, nm),
          All-map (IsFrom orig (n + 1)) (IsFrom orig n) (λ d (k, h, x). (k, omega (arith, h), x)) _
              a,
        ),
        (
          All-map (IsFrom orig (n + 1)) (HasOtherName c)
              (λ d (k, h, x) y.
                let z = i.0 n k (append-cancel orig _ _ (sym nm ∙ y ∙ x)) in omega (arith, h, z))
              _ a,
          b,
        ),
      )

  first-name :
      (id : ℕ) (orig : String) (p : Parent)
      → p.local_name_map orig ≡ none
      → (attach to_string id orig p).0.name ≡ orig
  unfolding attach
  first-name id orig p e = rw (attach, e) refl

  -- Where no child is destroyed, fewer than 2 ^ 32 children made with one name that the parent has
  -- not given yet have different names, whatever texts `std::to_string` gives for different numbers,
  -- if they are different and not empty.
  pub make_all-HasOtherName :
      (ids : List ℕ) (orig : String) (p : Parent)
      → IsNumeral to_string
      → p.local_name_map orig ≡ none
      → length ids < 2 ^ 32
      → Pairs HasOtherName (make_all ids orig p).0
  unfolding make_all
  make_all-HasOtherName [] orig p i e l = tt
  make_all-HasOtherName (id ∷ ids) orig p i e l =
      let (c, q) = attach to_string id orig p in
      let (_, _, m) = attach-first to_string id orig p e in
      let (a, b) = numbered ids orig 1 q i m (omega (arith, l)) in
      (
        All-map (IsFrom orig 1) (HasOtherName c)
            (λ d (k, h, x) y.
              let z = ap len (sym (first-name id orig p e) ∙ y ∙ x) in
              omega (arith, z, len-append orig (to_string k), i.1 k))
            _ a,
        b,
      )
