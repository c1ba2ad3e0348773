-- ===== src/Prelude/Word.antt =====
-- `uint64_t` arithmetic on the native numbers: values stay below 2 ^ 64, and wrap.
use Prim.Native.Nat.{ℕ, ◌%◌, ◌^◌, ◌<◌}

abbrev pub u64_mod : ℕ
u64_mod = 2 ^ 64

abbrev pub IsU64 : ℕ → Type 0
IsU64 n = n < 2 ^ 64

abbrev pub wrap : ℕ → ℕ
wrap n = n % 2 ^ 64
