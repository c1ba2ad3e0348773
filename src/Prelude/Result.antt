-- ===== src/Prelude/Result.antt =====
-- What a C++ call ends in: a value, an `assert` that fails, a thrown `std::runtime_error` with its
-- message, the `std::out_of_range` of a vector's `at`, or behaviour that the language leaves undefined.
use Prim.Native.String.{String}
use mathlib.Core.Path.{◌≡◌, refl}
use mathlib.Core.Logic.{◌⊎◌, inl, inr}
use mathlib.Core.Bool.{Bool, true, false}

pub data Fault : Type 0 where
  assertion : Fault
  runtime_error : String → Fault
  out_of_range : Fault
  undefined : Fault

pub data Result {ℓ} (A : Type ℓ) : Type ℓ where
  ok : A → Result A
  err : Fault → Result A

-- The call returns a value that has the property.
abbrev pub Returns {ℓ κ} : {A : Type ℓ} → Result A → (A → Type κ) → Type (ℓ ⊔ κ)
Returns {A} r P = (a : A) × (r ≡ ok a) × P a

-- `if (b) throw std::runtime_error(message)`
abbrev pub throw_if : Bool → String → Result (Unit {0})
throw_if b message = elim b [ true ↦ err (runtime_error message) | false ↦ ok tt ]

-- `assert(b)`
abbrev pub assert_that : Bool → Result (Unit {0})
assert_that b = elim b [ false ↦ err assertion | true ↦ ok tt ]

infixl 5 ◌>>=◌ ◌>>◌
abbrev pub ◌>>=◌ {κ ℓ} : {B : Type κ} {A : Type ℓ} → Result A → (A → Result B) → Result B
m >>= next = elim m [ err fault ↦ err fault | ok value ↦ next value ]

abbrev pub ◌>>◌ {κ} : {B : Type κ} → Result (Unit {0}) → Result B → Result B
m >> next = elim m [ err fault ↦ err fault | ok _ ↦ next ]

-- To split on the outcome of a call and keep the equation.
pub Result-cases {ℓ} :
    {A : Type ℓ} (r : Result A) → ((a : A) × (r ≡ ok a)) ⊎ ((f : Fault) × (r ≡ err f))
Result-cases (ok a) = inl (a, refl)
Result-cases (err f) = inr (f, refl)

-- If a chain of two calls returns, both calls do.
module _ {κ} {B : Type κ} where
  pub >>=-Returns {ℓ} :
      {A : Type ℓ} (m : Result A) (next : A → Result B) {b : B}
      → (m >>= next) ≡ ok b
      → Returns m (λ a. next a ≡ ok b)
  >>=-Returns (err fault) next e = cc
  >>=-Returns (ok value) next e = (value, refl, e)

  pub >>-Returns :
      (m : Result (Unit {0})) (next : Result B) {b : B}
      → (m >> next) ≡ ok b
      → (m ≡ ok tt) × (next ≡ ok b)
  >>-Returns (err fault) next e = cc
  >>-Returns (ok tt) next e = (refl, e)
