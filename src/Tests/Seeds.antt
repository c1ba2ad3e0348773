-- ===== src/Tests/Seeds.antt =====
-- The theorem on seeds, where a generator is its seed and every text has the hash 2.
use crave.Prelude.{ℕ, ◌≡◌, none, some}
use crave.RandomSeed.{
  SeedManager, new_seed_manager, set_global_seed, process_seed, get, engine_of, get-set_global_seed,
}

abbrev manager : SeedManager ℕ
manager = new_seed_manager ℕ (λ s. s) (λ name. 2) 5

get-set_global_seed_example :
    (e : ℕ) × (engine_of ℕ
        (λ s. s)
        (λ name. 2)
        "top"
        (get ℕ (λ s. s) (λ name. 2) (some "top") manager).1
      ≡ some e)
    × (engine_of ℕ (λ s. s) (λ name. 2) "top" manager ≡ none
        → e ≡ process_seed ℕ (λ s. s) (λ name. 2) "top" manager)
    × (engine_of ℕ
          (λ s. s)
          (λ name. 2)
          "top"
          (get ℕ
            (λ s. s)
            (λ name. 2)
            (some "top")
            (set_global_seed ℕ
              (λ s. s)
              (λ name. 2)
              9
              (get ℕ (λ s. s) (λ name. 2) (some "top") manager).1)).1
        ≡ some e)
    × ((set_global_seed ℕ
          (λ s. s)
          (λ name. 2)
          9
          (get ℕ (λ s. s) (λ name. 2) (some "top") manager).1).default_engine
        ≡ 9)
get-set_global_seed_example = get-set_global_seed ℕ (λ s. s) (λ name. 2) "top" 9 manager
