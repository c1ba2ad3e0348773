-- ===== src/RandomSeed.antt =====
-- crave/src/lib/RandomSeedManager.cpp, as it is built with SystemC: a generator of random numbers for each
-- process, and one for code outside of any.
use Prim.Native.String.{String}
use text.Mathlib.Text.{◌==◌ as str_eq}
use text.Mathlib.TextEquality.{eq_iff}
use crave.Prelude.{
  ℕ, ◌+◌, ◌*◌, ◌%◌, ◌^◌, ◌≡◌, refl, ap, ◌∙◌, Option, none, some, if◌then◌else◌, arith, Option-cases,
  inl, inr,
}

-- what `get()` points at: the default generator, or that of a process
pub data Reference : Type 0 where
  default_rng : Reference
  rng_of : String → Reference

-- the fields, with the generators themselves in place of the pointers to them
pub record SeedManager (Engine : Type 0) : Type 0 where
  pub random_map : String → Option Engine
  pub default_engine : Engine
  pub seed : ℕ

-- The generator that `std::mt19937` makes of a seed, and `std::hash`, are parameters.
module _ (Engine : Type 0) (seeded : ℕ → Engine) (string_hash : String → ℕ) where
  -- `RandomSeedManager(seed)`
  unfoldable pub new_seed_manager : ℕ → SeedManager Engine
  new_seed_manager s = record { random_map = λ k. none; default_engine = seeded s; seed = s }

  -- `set_global_seed(s)`
  unfoldable pub set_global_seed : ℕ → SeedManager Engine → SeedManager Engine
  set_global_seed s m = record m { seed = s; default_engine = seeded s }

  -- the seed of a new generator, of which `std::mt19937` takes 32 bits
  unfoldable pub process_seed : String → SeedManager Engine → ℕ
  process_seed name m = (m.seed + 19937 * string_hash name) % 2 ^ 32

  -- `get()` in a process, or outside of any
  unfoldable pub get : Option String → SeedManager Engine → Reference × SeedManager Engine
  get none m = (default_rng, m)
  get (some name) m = elim (m.random_map name) [
    | some e ↦ (rng_of name, m)
    | none ↦ (
      rng_of name,
      record m {
        random_map =
            λ k. if str_eq name k then some (seeded (process_seed name m)) else m.random_map k;
      },
    )
  ]

  -- The generator that a process has.
  abbrev pub engine_of : String → SeedManager Engine → Option Engine
  engine_of name m = m.random_map name

  made :
      (name : String) (m : SeedManager Engine)
      → (e : Engine) × (engine_of name (get (some name) m).1 ≡ some e)
        × ((f : Engine) → engine_of name m ≡ some f → e ≡ f)
        × (engine_of name m ≡ none → e ≡ seeded (process_seed name m))
  unfolding get
  made name m = elim (Option-cases (engine_of name m)) [
    | inl n ↦ (
      seeded (process_seed name m),
      rw (get, n) (rw ((eq_iff name name).1 refl) refl),
      (λ f h. ground (arith, n, h)),
      (λ h. refl),
    )
    | inr (e, s) ↦ (e, rw (get, s) s, (λ f h. ground (arith, s, h)), (λ h. ground (arith, s, h)))
  ]

  -- A process that asks for its generator gets one, made of the seed and its name if it has none.
  -- When the global seed is set after that and the process asks again, it still has that generator,
  -- while the default generator is made of the new seed.
  pub get-set_global_seed :
      (name : String) (s : ℕ) (m : SeedManager Engine)
      → (e : Engine) × (engine_of name (get (some name) m).1 ≡ some e)
        × (engine_of name m ≡ none → e ≡ seeded (process_seed name m))
        × (engine_of name (get (some name) (set_global_seed s (get (some name) m).1)).1 ≡ some e)
        × ((set_global_seed s (get (some name) m).1).default_engine ≡ seeded s)
  unfolding set_global_seed
  get-set_global_seed name s m =
      let (e, k, _, fresh) = made name m in
      let (f, l, same, _) = made name (set_global_seed s (get (some name) m).1) in
      (e, k, fresh, l ∙ ap some (same e k), refl)
