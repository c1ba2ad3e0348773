-- ===== src/Distribution.antt =====
-- crave/src/crave/frontend/WeightedRange.hpp, crave/src/crave/frontend/Distribution.hpp: weighted
-- ranges of an unsigned type `T` of `bits` bits, and a distribution over such ranges.
pub mod Overlap
pub mod Weights
pub mod Next
pub mod Range
use crave.Prelude.{
  ℕ, ◌+◌, ◌-◌, ◌*◌, ◌%◌, ◌^◌, ◌≤◌, ◌<◌, ◌≡◌, List, [], ◌∷◌, ◌++◌, Bool, true, false, ltb, leb,
  length, if◌then◌else◌, ◌||◌,
}
use crave.Prelude.Result.{Result, ok, err, runtime_error}
use crave.Prelude.Word.{wrap}

-- `weighted_range<T>`
pub record WeightedRange : Type 0 where
  pub left : ℕ
  pub right : ℕ
  pub weight : ℕ
  pub accum_weight : ℕ

-- `weighted_range(l, r, w)`
abbrev pub weighted_range : ℕ → ℕ → ℕ → WeightedRange
weighted_range l r w = record { left = l; right = r; weight = w; accum_weight = 0 }

-- `range(l, r)`: the weight `r + 1 - l`. A type narrower than `int` is promoted, and the difference
-- then converted to `uint64_t`; a wider one wraps in its own bits.
unfoldable pub range : ℕ → ℕ → ℕ → WeightedRange
range bits l r =
    weighted_range l r
      (if ltb bits 32 then wrap (r + 1 + 2 ^ 64 - l) else (r + 1 + 2 ^ bits - l) % 2 ^ bits)

-- `weighted_value(v, w)`
unfoldable pub weighted_value : ℕ → ℕ → WeightedRange
weighted_value v w = weighted_range v v w

-- `operator<`
unfoldable pub less : WeightedRange → WeightedRange → Bool
less a b =
    if ltb a.left b.left
    then true
    else if ltb b.left a.left
    then false
    else if ltb a.right b.right
    then true
    else false

-- `overlap(other)`
unfoldable pub overlap : WeightedRange → WeightedRange → Bool
overlap a b =
    if ltb a.left b.left
    then leb b.left a.right
    else if ltb b.left a.left
    then leb a.left b.right
    else false

-- `distribution<T>`, by its field `ranges_`
abbrev pub Distribution : Type 0
Distribution = List WeightedRange

-- `distribution()`, and the effect of `reset()`
abbrev pub empty : Distribution
empty = []

-- the loop at the start of `addRange`
unfoldable pub overlaps_any : Distribution → WeightedRange → Bool
overlaps_any [] wr = false
overlaps_any (x ∷ xs) wr = overlap x wr || overlaps_any xs wr

-- `ranges_.back()`, where there is a first range `x`
unfoldable pub back : WeightedRange → Distribution → WeightedRange
back x [] = x
back x (y ∷ ys) = back y ys

-- the new range's `accumWeight_`: `uint64_t` sums wrap
unfoldable pub next_accum : Distribution → ℕ → ℕ
next_accum [] w = w
next_accum (x ∷ xs) w = wrap ((back x xs).accum_weight + w)

-- `addRange(wr)`
unfoldable pub add_range : Distribution → WeightedRange → Result Distribution
add_range d wr =
    if overlaps_any d wr
    then err (runtime_error "Overlapping range exists.")
    else ok (d ++ record wr { accum_weight = next_accum d wr.weight } ∷ [])

-- The loop of `nextValue`: the first range with more accumulated weight than `r`, or `selected` as it
-- was before.
unfoldable pub select : WeightedRange → ℕ → Distribution → WeightedRange
select selected r [] = selected
select selected r (x ∷ xs) = if ltb r x.accum_weight then x else select selected r xs

-- `std::uniform_int_distribution` over a `std::mt19937`: what the program takes from the standard
-- library. A draw between two bounds that are in order lies between them.
pub record Random : Type 1 where
  pub State : Type 0
  pub uniform : ℕ → ℕ → State → ℕ × State
  pub uniform_range :
      (a b : ℕ) (g : State) → a ≤ b → (a ≤ (uniform a b g).0) × ((uniform a b g).0 ≤ b)

module _ (rng : Random) where
  -- `nextValue()`; `T` has the values below `2 ^ bits`.
  unfoldable pub next_value : ℕ → Distribution → rng.State → ℕ × rng.State
  next_value bits [] g = rng.uniform 0 (2 ^ bits - 1) g
  next_value bits (x ∷ []) g = rng.uniform x.left x.right g
  next_value bits (x ∷ y ∷ ys) g =
      let last = back y ys in
      let (r, h) = rng.uniform 0 (wrap (last.accum_weight + 2 ^ 64 - 1)) g in
      let chosen = select last r (x ∷ y ∷ ys) in rng.uniform chosen.left chosen.right h
