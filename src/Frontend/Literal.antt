-- ===== src/Frontend/Literal.antt =====
-- The constant that crave/src/crave/ir/Context.hpp makes of a literal.
use crave.Prelude.{
  ℕ, zero, suc, ◌+◌, ◌-◌, ◌/◌, ◌%◌, ◌^◌, ◌≤◌, ◌<◌, ◌≡◌, ◌⊎◌, refl, sym, true, false, none, some,
  arith, Bool-cases, Option-cases, inl, inr, if◌then◌else◌, ◌==◌,
}
use mathlib.Core.Path.{subst}
use native.Mathlib.Nat.{one-le-pow, pow-le-pow_right, div-eq_of_lt}
use crave.Prelude.Int.{ℤ, pos, negsuc}
use crave.Ir.{Constant}
use crave.Frontend.{Traits, to_uint64, narrow, new_value}

lt-of_div : (n m : ℕ) → 0 < m → n / m ≡ 0 → n < m
lt-of_div n m h e = grind arith

below-or : (n m : ℕ) → (n < m) ⊎ (m ≤ n)
below-or n m = omega arith

le-of_div : (n m : ℕ) → (n / m == 0) ≡ false → m ≤ n
le-of_div n m h = elim (below-or n m) [
  | inl k ↦ let e : n / m ≡ 0 = div-eq_of_lt k in ground arith
  | inr k ↦ k
]

pow_pos : (k : ℕ) → 0 < 2 ^ k
pow_pos k = one-le-pow k 2 (omega arith)

-- The width that the loop finds, from `j` on: the value fits it, and no smaller one of them.
narrow-least :
    (k j n w : ℕ)
    → narrow k j n ≡ some w
    → (j ≤ w) × (w < j + k) × (n < 2 ^ w) × ((w ≡ j) ⊎ (2 ^ (w - 1) ≤ n))
unfolding narrow
narrow-least zero j n w h = cc
narrow-least (suc k) j n w h = elim (Bool-cases (n / 2 ^ j == 0)) [
  | inl b ↦
      let e : j ≡ w = ground arith in
      (
        omega arith,
        omega arith,
        rw (← e) (lt-of_div n (2 ^ j) (pow_pos j) (ground arith)),
        inl (sym e),
      )
  | inr b ↦
      let (l, u, f, g) = narrow-least k (suc j) n w (ground arith) in
      (
        omega arith,
        omega arith,
        f,
        inr (elim g [
          | inl e ↦ subst (λ i. 2 ^ i ≤ n) (omega arith) (le-of_div n (2 ^ j) b)
          | inr m ↦ m
        ]),
      )
]

-- The loop finds nothing: the value needs all of the bits that it tries.
narrow-none : (k j n : ℕ) → narrow k j n ≡ none → (k ≡ 0) ⊎ (2 ^ (j + k - 1) ≤ n)
unfolding narrow
narrow-none zero j n h = inl refl
narrow-none (suc k) j n h = elim (Bool-cases (n / 2 ^ j == 0)) [
  | inl b ↦ ground arith
  | inr b ↦ elim (narrow-none k (suc j) n (ground arith)) [
    | inl e ↦ inr (subst (λ i. 2 ^ i ≤ n) (omega arith) (le-of_div n (2 ^ j) b))
    | inr m ↦ inr (subst (λ i. 2 ^ i ≤ n) (omega arith) m)
  ]
]

lt_pow : (n i k : ℕ) → i ≤ k → n < 2 ^ i → n < 2 ^ k
lt_pow n i k h l = let m : 2 ^ i ≤ 2 ^ k = pow-le-pow_right (omega arith) h in omega arith

-- The values of a type of at most 64 bits.
abbrev pub IsOf : Traits → ℤ → Type 0
IsOf t (pos n) = n < 2 ^ (if t.sign then t.width - 1 else t.width)
IsOf t (negsuc n) = (t.sign ≡ true) × (n < 2 ^ (t.width - 1))

-- What a constant stands for: its value, if it is not negative, has a least width, and is no other one when
-- its bits are extended by the sign.
abbrev pub Represents : Constant → ℤ → Type 0
Represents c (pos n) =
    (c.value ≡ n)
    × (n < 2 ^ c.bitsize)
    × ((c.bitsize ≡ 1) ⊎ (2 ^ (c.bitsize - 1) ≤ n))
    × (c.sign ≡ true → n < 2 ^ (c.bitsize - 1))
Represents c (negsuc n) = (c.value + n + 1 ≡ 2 ^ 64) × (c.sign ≡ true) × (n < 2 ^ (c.bitsize - 1))

-- The constant of a literal of a type with 1 to 64 bits: for a value that is not negative, it is the
-- value, with the least width that holds it, at least 1, and signed only if the topmost of these bits
-- is 0; for a negative value, it is the value in two's complement of 64 bits, signed, with the width
-- of the type. It is never wider than the type.
pub new_value-Represents :
    (t : Traits) (i : ℤ)
    → 0 < t.width
    → t.width ≤ 64
    → IsOf t i
    → Represents (new_value t i) i × ((new_value t i).bitsize ≤ t.width)
unfolding new_value to_uint64
new_value-Represents t (pos n) p l h =
    let high : n < 2 ^ t.width =
      lt_pow n (if t.sign then t.width - 1 else t.width) t.width (ground arith) h in
    let small : n % 2 ^ 64 ≡ n = let k = lt_pow n t.width 64 l high in omega arith in
    elim (Option-cases (narrow (t.width - 1) 1 n)) [
      | inl e ↦
          rw (e, new_value)
            (
              (
                small,
                high,
                elim (narrow-none (t.width - 1) 1 n e) [
                  | inl z ↦ inl (omega arith)
                  | inr m ↦ inr (subst (λ i. 2 ^ i ≤ n) (omega arith) m)
                ],
                (λ z. ground arith),
              ),
              omega arith,
            )
      | inr (w, e) ↦
          let (a, b, f, g) = narrow-least (t.width - 1) 1 n w e in
          rw (e, new_value) ((small, f, g, (λ z. cc)), omega arith)
    ]
new_value-Represents t (negsuc n) p l (s, h) =
    let k = lt_pow n (t.width - 1) 64 (omega arith) h in ((omega arith, s, h), omega arith)
