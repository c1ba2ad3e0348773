-- ===== src/Distribution/Range.antt =====
-- The default weight of a `range` of crave/src/crave/frontend/WeightedRange.hpp.
use native.Mathlib.Nat.{pow-le-pow_right, mod-eq_of_lt, add-mod_right, mod_self}
use crave.Prelude.{
  ℕ, ◌+◌, ◌-◌, ◌%◌, ◌^◌, ◌≤◌, ◌<◌, ◌≡◌, ltb, Bool-cases, false, arith, inl, inr, ◌⊎◌,
}
use crave.Distribution.{range}

wrap_difference : (m l r : ℕ) → l ≤ r → r + 1 - l < m → (r + 1 + m - l) % m ≡ r + 1 - l
wrap_difference m l r o h =
    let e : r + 1 + m - l ≡ r + 1 - l + m = omega arith in rw (e, add-mod_right) (mod-eq_of_lt h)

wrap_full : (m l r : ℕ) → l ≤ r → r + 1 - l ≡ m → (r + 1 + m - l) % m ≡ 0
wrap_full m l r o h =
    let e : r + 1 + m - l ≡ m + m = omega arith in rw (e, add-mod_right) (mod_self m)

-- For ends in order, the weight is the number of values of the range; except that the range of all
-- values of a type of 32 bits or more has the weight 0.
pub range-weight :
    (bits l r : ℕ)
    → l ≤ r
    → r < 2 ^ bits
    → ((bits < 32) ⊎ (r + 1 - l < 2 ^ bits) → (range bits l r).weight ≡ r + 1 - l)
      × (32 ≤ bits → r + 1 - l ≡ 2 ^ bits → (range bits l r).weight ≡ 0)
unfolding range
range-weight bits l r o h = (
  λ c. elim (Bool-cases (ltb bits 32)) [
    | inl narrow ↦
        let top : 2 ^ bits ≤ 2 ^ 32 =
          pow-le-pow_right (omega arith) {i = bits} {j = 32} (ground arith) in
        rw narrow (wrap_difference (2 ^ 64) l r o (omega arith))
    | inr wide ↦
        rw wide (wrap_difference (2 ^ bits) l r o (elim c [ inl n ↦ ground arith | inr p ↦ p ]))
  ],
  λ wide full. let w : ltb bits 32 ≡ false = ground arith in rw w (wrap_full (2 ^ bits) l r o full),
)
