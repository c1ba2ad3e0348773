-- ===== src/Frontend/Assign.antt =====
-- crave/src/crave/frontend/AssignResultToRef.hpp: the value of an integral type, as its bits, that is
-- read from the text of binary digits that a solver gives.
use native.Mathlib.Nat.{
  mod-eq_of_lt, one-le-pow, div-add-mod, mul-add-mod_self_left, mul-add-mod_self_right,
}
use crave.Prelude.{
  ℕ, zero, suc, ◌+◌, ◌-◌, ◌*◌, ◌/◌, ◌%◌, ◌^◌, ◌<◌, ◌≡◌, refl, ◌∙◌, sym, ap, List, [], ◌∷◌, map,
  Bool, true, false, not, ◌&&◌, Option, none, some, ◌==◌, length, arith, if◌then◌else◌,
}

-- `*val |= T(1)` and `*val &= T(-2)`
abbrev pub set_low : ℕ → ℕ
set_low v = v - v % 2 + 1

abbrev pub clear_low : ℕ → ℕ
clear_low v = v - v % 2

-- `random_bit && random_bit()`, where the function may not be set
abbrev pub random_low : {S : Type 0} → Option (S → Bool × S) → S → Bool × S
random_low none s = (false, s)
random_low (some f) s = f s

-- a round of the loop of `set_value`, after the shift
unfoldable pub with_digit : {S : Type 0} → Option (S → Bool × S) → ℕ → ℕ → S → ℕ × S
with_digit f digit v s =
    if digit == b'0'
    then (clear_low v, s)
    else if digit == b'1'
    then (set_low v, s)
    else (let (b, t) = random_low f s in (if b then set_low v else clear_low v, t))

-- the loop, over the characters
unfoldable pub with_digits : {S : Type 0} → ℕ → Option (S → Bool × S) → List ℕ → ℕ → S → ℕ × S
with_digits width f [] v s = (v, s)
with_digits width f (d ∷ ds) v s =
    let (v1, s1) = with_digit f d (v * 2 % 2 ^ width) s in with_digits width f ds v1 s1

-- the value before the loop
abbrev pub first_bits : ℕ → Bool → List ℕ → ℕ
first_bits width signed [] = 0
first_bits width signed (d ∷ ds) = if signed && d == b'1' then 2 ^ width - 1 else 0

-- `set_value(str, val)`
unfoldable pub set_value : {S : Type 0} → ℕ → Bool → Option (S → Bool × S) → List ℕ → S → ℕ × S
set_value width signed f str s = with_digits width f str (first_bits width signed str) s

-- The text of binary digits, most significant first.
abbrev pub digit : Bool → ℕ
digit b = if b then b'1' else b'0'

-- A number from its bits, behind those of another.
unfoldable pub number : ℕ → List Bool → ℕ
number v [] = v
number v (b ∷ bs) = number (v * 2 + (if b then 1 else 0)) bs

-- The rest of a number at `2 h` from its rest at `h`.
double_rest : (v h c : ℕ) → c < 2 → 0 < h → (v * 2 + c) % (h * 2) ≡ v % h * 2 + c
double_rest v h c l p =
    let split : h * (v / h) + v % h ≡ v = div-add-mod v h in
    let whole : v * 2 + c ≡ h * 2 * (v / h) + (v % h * 2 + c) = grind arith in
    rw whole (mul-add-mod_self_left (h * 2) (v / h) (v % h * 2 + c) ∙ mod-eq_of_lt (grind arith))

-- The rest at `2 h` does not matter before the shift.
shifted_rest : (v h : ℕ) → v % (h * 2) * 2 % (h * 2) ≡ v * 2 % (h * 2)
shifted_rest v h =
    let split : h * 2 * (v / (h * 2)) + v % (h * 2) ≡ v = div-add-mod v (h * 2) in
    let whole : v * 2 ≡ h * 2 * (v / (h * 2) * 2) + v % (h * 2) * 2 = grind arith in
    sym (
      ap (λ x. x % (h * 2)) whole
      ∙ mul-add-mod_self_left (h * 2) (v / (h * 2) * 2) (v % (h * 2) * 2))

with_digit-digit :
    {S : Type 0} (f : Option (S → Bool × S)) (v h : ℕ) (b : Bool) (s : S)
    → 0 < h
    → with_digit f (digit b) (v % (h * 2) * 2 % (h * 2)) s
      ≡ ((v * 2 + (if b then 1 else 0)) % (h * 2), s)
unfolding with_digit
with_digit-digit f v h true s p = rw (shifted_rest v h) (
    rw (double_rest v h 1 (omega arith) p)
      (let e = double_rest v h 0 (omega arith) p in ground arith))
with_digit-digit f v h false s p = rw (shifted_rest v h) (
    rw (double_rest v h 0 (omega arith) p)
      (let e = double_rest v h 0 (omega arith) p in ground arith))

-- The loop on digits, from any bits.
with_digits-number :
    {S : Type 0} (f : Option (S → Bool × S)) (h v : ℕ) (w : ℕ) (bs : List Bool) (s : S)
    → 0 < h
    → 2 ^ w ≡ h * 2
    → with_digits w f (map digit bs) (v % (h * 2)) s ≡ (number v bs % (h * 2), s)
unfolding with_digits number
with_digits-number f h v w [] s p e = refl
with_digits-number f h v w (b ∷ bs) s p e =
    rw (e, with_digits)
      (rw (with_digit-digit f v h b s p)
        (with_digits-number f h (v * 2 + (if b then 1 else 0)) w bs s p e))

-- The bits before others count for their power of two.
number-shift : (v : ℕ) (bs : List Bool) → number v bs ≡ v * 2 ^ length bs + number 0 bs
unfolding number
number-shift v [] = omega arith
number-shift v (b ∷ bs) =
    let i = number-shift (v * 2 + (if b then 1 else 0)) bs in
    let j = number-shift (0 * 2 + (if b then 1 else 0)) bs in
    let e : 2 ^ suc (length bs) ≡ 2 ^ length bs * 2 = omega arith in
    rw i (rw j (rw e (grind arith)))

-- The binary digits of a number, as many as are asked for, most significant first.
unfoldable pub to_bits : ℕ → ℕ → List Bool
to_bits zero n = []
to_bits (suc k) n = not (n / 2 ^ k % 2 == 0) ∷ to_bits k n

length-to_bits : (k n : ℕ) → length (to_bits k n) ≡ k
unfolding to_bits
length-to_bits zero n = refl
length-to_bits (suc k) n = omega (arith, length-to_bits k n)

regroup : (m k r t : ℕ) → m * (2 * k + r) + t ≡ m * 2 * k + (r * m + t)
regroup m k r t = grind arith

two_parts : (n m : ℕ) → 0 < m → n % (m * 2) ≡ (if not (n / m % 2 == 0) then 1 else 0) * m + n % m
two_parts n m p =
    let a : m * (n / m) + n % m ≡ n = div-add-mod n m in
    let b : 2 * (n / m / 2) + n / m % 2 ≡ n / m = div-add-mod (n / m) 2 in
    let whole : n ≡ m * 2 * (n / m / 2) + (n / m % 2 * m + n % m) =
      sym a ∙ (ap (λ q. m * q + n % m) (sym b) ∙ regroup m (n / m / 2) (n / m % 2) (n % m)) in
    let rest : n % (m * 2) ≡ n / m % 2 * m + n % m =
      ap (λ x. x % (m * 2)) whole
      ∙ (mul-add-mod_self_left (m * 2) (n / m / 2) (n / m % 2 * m + n % m)
          ∙ mod-eq_of_lt (grind arith)) in
    rest ∙ ap (λ x. x * m + n % m) (ground arith)

number-to_bits : (k n : ℕ) → number 0 (to_bits k n) ≡ n % 2 ^ k
unfolding number to_bits
number-to_bits zero n = omega arith
number-to_bits (suc k) n =
    let b : ℕ = if not (n / 2 ^ k % 2 == 0) then 1 else 0 in
    let e : 2 ^ suc k ≡ 2 ^ k * 2 = omega arith in
    rw e (
      rw (two_parts n (2 ^ k) (one-le-pow k 2 (omega arith))) (
        rw (number-shift (0 * 2 + b) (to_bits k n))
          (rw (length-to_bits k n) (rw (number-to_bits k n) (omega arith)))))

first_bits-lt : (width : ℕ) (signed : Bool) (ds : List ℕ) → first_bits width signed ds < 2 ^ width
first_bits-lt width signed [] = one-le-pow width 2 (omega arith)
first_bits-lt width signed (d ∷ ds) =
    let p : 0 < 2 ^ width = one-le-pow width 2 (omega arith) in ground arith

last_bits :
    {S : Type 0} (width : ℕ) (f : Option (S → Bool × S)) (v n : ℕ) (s : S)
    → v < 2 ^ suc width
    → n < 2 ^ suc width
    → with_digits (suc width) f (map digit (to_bits (suc width) n)) v s ≡ (n, s)
last_bits width f v n s l m =
    let p : 0 < 2 ^ width = one-le-pow width 2 (omega arith) in
    let e : 2 ^ suc width ≡ 2 ^ width * 2 = omega arith in
    let same : v % (2 ^ width * 2) ≡ v = mod-eq_of_lt (omega arith) in
    let bs = to_bits (suc width) n in
    let value : number v bs % (2 ^ width * 2) ≡ n = rw (number-shift v bs) (
      rw (length-to_bits (suc width) n) (
        rw (number-to_bits (suc width) n) (
          rw (mod-eq_of_lt m)
            (rw e (mul-add-mod_self_right v (2 ^ width * 2) n ∙ mod-eq_of_lt (omega arith)))))) in
    rw (← same) (with_digits-number f (2 ^ width) v (suc width) bs s p e ∙ ap (λ x. (x, s)) value)

-- The text of all bits of a value of an integral type, signed or not, gives the value, whatever the
-- source of random bits, which is not drawn from.
pub set_value-to_bits :
    {S : Type 0} (width : ℕ) (signed : Bool) (f : Option (S → Bool × S)) (n : ℕ) (s : S)
    → 0 < width
    → n < 2 ^ width
    → set_value width signed f (map digit (to_bits width n)) s ≡ (n, s)
unfolding set_value
set_value-to_bits zero signed f n s p l = absurd (omega arith)
set_value-to_bits (suc width) signed f n s p l =
    last_bits width f (first_bits (suc width) signed (map digit (to_bits (suc width) n))) n s
      (first_bits-lt (suc width) signed (map digit (to_bits (suc width) n))) l
