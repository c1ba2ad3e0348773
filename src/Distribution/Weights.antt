-- ===== src/Distribution/Weights.antt =====
-- The accumulated weights of crave/src/crave/frontend/Distribution.hpp, and the selection by them.
use crave.Prelude.{
  ℕ, ◌+◌, ◌^◌, ◌≤◌, ◌<◌, ◌≡◌, refl, ap, [], ◌∷◌, ◌++◌, ltb, arith, Bool-cases, inl, inr, All,
  All-append,
}
use crave.Prelude.Result.{ok}
use crave.Distribution.{WeightedRange, Distribution, back, next_accum, add_range, select}
use crave.Distribution.Overlap.{IsRange}

-- The sum of the weights.
unfoldable pub weights : Distribution → ℕ
weights [] = 0
weights (x ∷ xs) = x.weight + weights xs

-- From the sum `base` on, each accumulated weight is the sum of the weights up to its range.
abbrev pub Accumulates : ℕ → Distribution → Type 0
Accumulates base [] = Unit
Accumulates base (x ∷ xs) = (x.accum_weight ≡ base + x.weight) × Accumulates (base + x.weight) xs

pub Accumulates-back :
    (base : ℕ) (x : WeightedRange) (xs : Distribution)
    → Accumulates base (x ∷ xs)
    → (back x xs).accum_weight ≡ base + weights (x ∷ xs)
unfolding back weights
Accumulates-back base x [] h = omega arith
Accumulates-back base x (y ∷ ys) h = omega (arith, Accumulates-back (base + x.weight) y ys h.1)

Accumulates-concat :
    (base : ℕ) (d : Distribution) (x : WeightedRange)
    → Accumulates base d
    → x.accum_weight ≡ base + weights d + x.weight
    → Accumulates base (d ++ x ∷ [])
unfolding weights
Accumulates-concat base [] x h e = (omega arith, tt)
Accumulates-concat base (y ∷ ys) x h e =
    (h.0, Accumulates-concat (base + y.weight) ys x h.1 (omega arith))

weights-concat :
    (d : Distribution) (x : WeightedRange) → weights (d ++ x ∷ []) ≡ weights d + x.weight
unfolding weights
weights-concat [] x = omega arith
weights-concat (y ∷ ys) x = omega (arith, weights-concat ys x)

pub next_accum-weights :
    (d : Distribution) (w : ℕ)
    → Accumulates 0 d
    → weights d + w < 2 ^ 64
    → next_accum d w ≡ weights d + w
unfolding next_accum weights
next_accum-weights [] w h l = omega arith
next_accum-weights (x ∷ xs) w h l = omega (arith, Accumulates-back 0 x xs h)

-- A distribution that `addRange` has built: its weights fit, and its sums are right.
pub record IsValid (d : Distribution) : Type 0 where
  pub accumulates : Accumulates 0 d
  pub fits : weights d < 2 ^ 64
  pub ordered : All IsRange d

-- A range that `addRange` accepts, with its ends in order and room for its weight, leaves the
-- distribution valid: the ranges there were stay as they are, and the new one stands last, under
-- its own weight.
pub add_range-IsValid :
    (d : Distribution) (wr : WeightedRange) (d' : Distribution)
    → IsValid d
    → IsRange wr
    → weights d + wr.weight < 2 ^ 64
    → add_range d wr ≡ ok d'
    → IsValid d'
      × (d' ≡ d ++ record wr { accum_weight = weights d + wr.weight } ∷ [])
      × (weights d' ≡ weights d + wr.weight)
unfolding add_range
add_range-IsValid d wr d' v o l e =
    let wr' : WeightedRange = record wr { accum_weight = weights d + wr.weight } in
    let sum = next_accum-weights d wr.weight v.accumulates l in
    let made : d' ≡ d ++ record wr { accum_weight = weights d + wr.weight } ∷ [] = ground arith in
    let w = weights-concat d wr' in
    (
      rw made (record {
        accumulates = Accumulates-concat 0 d wr' v.accumulates (omega arith);
        fits = omega arith;
        ordered = All-append IsRange d (wr' ∷ []) v.ordered (o, tt);
      }),
      made,
      rw made w,
    )

-- The range that stands at `r` on the line of the weights is the one selected: a range is selected
-- for exactly as many `r` as its weight.
pub select-at :
    (base : ℕ) (before : Distribution) (x : WeightedRange) (after : Distribution)
    (selected : WeightedRange) (r : ℕ)
    → Accumulates base (before ++ x ∷ after)
    → base + weights before ≤ r
    → r < base + weights before + x.weight
    → select selected r (before ++ x ∷ after) ≡ x
unfolding select weights
select-at base [] x after selected r h lo hi = ground arith
select-at base (y ∷ ys) x after selected r h lo hi =
    ground (arith, select-at (base + y.weight) ys x after selected r h.1)

select-at_split :
    (d before : Distribution) (x : WeightedRange) (after : Distribution) (selected : WeightedRange)
    (r : ℕ)
    → d ≡ before ++ x ∷ after
    → Accumulates 0 d
    → weights before ≤ r
    → r < weights before + x.weight
    → select selected r d ≡ x
select-at_split d before x after selected r e a lo hi =
    rw e (select-at 0 before x after selected r (rw e at a) (omega arith) (omega arith))

-- Where `r` is below the sum of the weights, one of the ranges stands there.
pub select-split :
    (base : ℕ) (d : Distribution) (r : ℕ)
    → base ≤ r
    → r < base + weights d
    → (before : Distribution) × (x : WeightedRange) × (after : Distribution) × (d
        ≡ before ++ x ∷ after)
      × (base + weights before ≤ r)
      × (r < base + weights before + x.weight)
unfolding weights
select-split base [] r lo hi = absurd (omega arith)
select-split base (y ∷ ys) r lo hi = elim (Bool-cases (ltb r (base + y.weight))) [
  | inl here ↦ ([], y, ys, refl, omega arith, ground arith)
  | inr later ↦
      let (before, x, after, e, l, h) =
        select-split (base + y.weight) ys r (ground arith) (omega arith) in
      (y ∷ before, x, after, ap (λ (t : Distribution). y ∷ t) e, omega arith, omega arith)
]

-- The draw of `nextValue` below the total weight selects a range of the distribution, and it is the
-- one at that place on the line of the weights.
pub select-exact :
    (d : Distribution) (selected : WeightedRange) (r : ℕ)
    → IsValid d
    → r < weights d
    → (before : Distribution) × (x : WeightedRange) × (after : Distribution) × (d
        ≡ before ++ x ∷ after)
      × (weights before ≤ r)
      × (r < weights before + x.weight)
      × (select selected r d ≡ x)
select-exact d selected r v h =
    let (before, x, after, e, lo, hi) = select-split 0 d r (omega arith) (omega arith) in
    (
      before,
      x,
      after,
      e,
      omega arith,
      omega arith,
      select-at_split d before x after selected r e v.accumulates (omega arith) (omega arith),
    )
