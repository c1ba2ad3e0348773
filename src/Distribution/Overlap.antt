-- ===== src/Distribution/Overlap.antt =====
-- What `overlap` of crave/src/crave/frontend/WeightedRange.hpp finds, and what it misses.
use Prim.Native.Nat.{max}
use crave.Prelude.{ℕ, ◌≤◌, ◌≡◌, ◌≢◌, ◌↔◌, true, false, arith}
use crave.Distribution.{WeightedRange, overlap}

abbrev pub Contains : WeightedRange → ℕ → Type 0
Contains a v = (a.left ≤ v) × (v ≤ a.right)

-- A value that both ranges contain.
abbrev pub Shares : WeightedRange → WeightedRange → Type 0
Shares a b = (v : ℕ) × Contains a v × Contains b v

abbrev pub IsRange : WeightedRange → Type 0
IsRange a = a.left ≤ a.right

-- For ranges in order with different left ends, `overlap` says whether they share a value; for
-- ranges with one left end it says that they do not, although both contain that end.
pub overlap-exact :
    (a b : WeightedRange)
    → IsRange a
    → IsRange b
    → (a.left ≢ b.left → (overlap a b ≡ true) ↔ Shares a b)
      × (a.left ≡ b.left → (overlap a b ≡ false) × Shares a b)
unfolding overlap
overlap-exact a b ha hb = (
  λ ne. (λ o. (max a.left b.left, ground arith, ground arith), λ (v, p, q). ground arith),
  λ e. (ground arith, (a.left, omega arith, omega arith)),
)
