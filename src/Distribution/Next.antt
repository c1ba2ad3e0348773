-- ===== src/Distribution/Next.antt =====
-- The values that `nextValue` of crave/src/crave/frontend/Distribution.hpp draws.
use mathlib.Core.List.{Memᴰ}
use mathlib.Core.List.Memᴰ
use crave.Prelude.{ℕ, ◌+◌, ◌-◌, ◌^◌, ◌≤◌, ◌<◌, ◌≡◌, refl, [], ◌∷◌, ◌++◌, arith, All}
use crave.Prelude.Word.{wrap}
use crave.Distribution.{WeightedRange, Distribution, back, select, Random, next_value}
use crave.Distribution.Overlap.{IsRange, Contains}
use crave.Distribution.Weights.{weights, IsValid, Accumulates-back, select-exact}

All-middle :
    (before : Distribution) (x : WeightedRange) (after : Distribution)
    → All IsRange (before ++ x ∷ after)
    → IsRange x
All-middle [] x after h = h.0
All-middle (y ∷ ys) x after h = All-middle ys x after h.1

ordered-at :
    (d before : Distribution) (x : WeightedRange) (after : Distribution)
    → d ≡ before ++ x ∷ after
    → All IsRange d
    → IsRange x × Memᴰ x d
ordered-at d before x after e h =
    (All-middle before x after (rw e at h), rw e (Memᴰ.append_right before (Memᴰ.head refl)))

wrap_before : (a w : ℕ) → a ≡ w → 0 < w → w < 2 ^ 64 → wrap (a + 2 ^ 64 - 1) ≡ w - 1
wrap_before a w e pos top = omega arith

drawn :
    (rng : Random) (d : Distribution) (last z : WeightedRange) (k m : ℕ) (g : rng.State)
    → k ≡ m
    → select last (rng.uniform 0 m g).0 d ≡ z
    → IsRange z
    → let draw = rng.uniform 0 k g in
      let chosen = select last draw.0 d in
      Contains z (rng.uniform chosen.left chosen.right draw.1).0
drawn rng d last z k m g e sel o =
    rw (e, sel) (rng.uniform_range z.left z.right (rng.uniform 0 m g).1 o)

-- For a valid distribution of two ranges or more with some weight, the first draw is a place on the
-- line of all the weights, and the value drawn then lies in the range that stands at this place.
pub next_value-weighted :
    (rng : Random) (bits : ℕ) (x y : WeightedRange) (ys : Distribution) (g : rng.State)
    → IsValid (x ∷ y ∷ ys)
    → 0 < weights (x ∷ y ∷ ys)
    → let place = (rng.uniform 0 (weights (x ∷ y ∷ ys) - 1) g).0 in
      (before : Distribution) × (z : WeightedRange) × (after : Distribution) × (x ∷ y ∷ ys
        ≡ before ++ z ∷ after)
      × (weights before ≤ place)
      × (place < weights before + z.weight)
      × Contains z (next_value rng bits (x ∷ y ∷ ys) g).0
unfolding next_value back
next_value-weighted rng bits x y ys g v pos =
    let d = x ∷ y ∷ ys in
    let top = Accumulates-back 0 x (y ∷ ys) v.accumulates in
    let total : wrap ((back y ys).accum_weight + 2 ^ 64 - 1) ≡ weights (x ∷ y ∷ ys) - 1 =
      wrap_before (back y ys).accum_weight (weights (x ∷ y ∷ ys)) (omega (arith, top)) pos v.fits in
    let draw = rng.uniform 0 (weights d - 1) g in
    let low = rng.uniform_range 0 (weights d - 1) g (omega arith) in
    let (before, z, after, e, lo, hi, sel) = select-exact d (back y ys) draw.0 v (omega arith) in
    let (o, _) = ordered-at d before z after e v.ordered in
    (before, z, after, e, lo, hi, drawn rng d (back y ys) z _ _ g total sel o)

-- From a valid distribution with a weight, `nextValue` draws a value that one of its ranges holds.
pub next_value-in_range :
    (rng : Random) (bits : ℕ) (x : WeightedRange) (d : Distribution) (g : rng.State)
    → IsValid (x ∷ d)
    → 0 < weights (x ∷ d)
    → (y : WeightedRange) × Memᴰ y (x ∷ d) × Contains y (next_value rng bits (x ∷ d) g).0
unfolding next_value
next_value-in_range rng bits x [] g v pos =
    (x, Memᴰ.head refl, rng.uniform_range x.left x.right g v.ordered.0)
next_value-in_range rng bits x (y ∷ ys) g v pos =
    let (before, z, after, e, lo, hi, c) = next_value-weighted rng bits x y ys g v pos in
    (z, (ordered-at (x ∷ y ∷ ys) before z after e v.ordered).1, c)
