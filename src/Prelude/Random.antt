-- ===== src/Prelude/Random.antt =====
-- The sources of chance that the program draws from: `crave::random_unsigned` and
-- `std::random_shuffle` over it. The state of the generator is passed explicitly.
use crave.Prelude.Lists.{All, length}
use Prim.Native.Nat.{ℕ, suc, ◌<◌}
use mathlib.Core.Path.{◌≡◌, refl, ap, ◌∙◌, subst}
use mathlib.Core.List.{List, map, Permᴰ}

pub record Random (E : Type 0) : Type 1 where
  pub Rng : Type 0
  -- `random_unsigned(n)`
  pub random_unsigned : ℕ → Rng → ℕ × Rng
  -- `random_shuffle(first, last, random_unsigned)`
  pub random_shuffle : List E → Rng → List E × Rng

-- What the standard library documents: a number below a bound that is not 0, and a permutation.
pub record IsRandom {E : Type 0} (R : Random E) : Type 0 where
  pub below : (n : ℕ) (r : R.Rng) → (R.random_unsigned (suc n) r).0 < suc n
  pub shuffled : (xs : List E) (r : R.Rng) → Permᴰ xs ((R.random_shuffle xs r).0)

pub Permᴰ-All_map {ℓ κ} :
    {A B : Type ℓ} (P : B → Type κ) (f : A → B) {xs ys : List A}
    → Permᴰ xs ys
    → All P (map f xs)
    → All P (map f ys)
Permᴰ-All_map P f Permᴰ.nil h = tt
Permᴰ-All_map P f (Permᴰ.cons e p) h = (subst (λ x. P (f x)) e h.0, Permᴰ-All_map P f p h.1)
Permᴰ-All_map P f (Permᴰ.swap e d) h =
    (subst (λ x. P (f x)) d h.1.0, (subst (λ x. P (f x)) e h.0, h.1.1))
Permᴰ-All_map P f (Permᴰ.trans p q) h = Permᴰ-All_map P f q (Permᴰ-All_map P f p h)

pub Permᴰ-length {ℓ} : {A : Type ℓ} {xs ys : List A} → Permᴰ xs ys → length xs ≡ length ys
Permᴰ-length Permᴰ.nil = refl
Permᴰ-length (Permᴰ.cons e p) = ap suc (Permᴰ-length p)
Permᴰ-length (Permᴰ.swap e f) = refl
Permᴰ-length (Permᴰ.trans p q) = Permᴰ-length p ∙ Permᴰ-length q
