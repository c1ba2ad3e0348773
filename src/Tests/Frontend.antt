-- ===== src/Tests/Frontend.antt =====
-- The theorems on the expressions that a program writes, at two that read a vector and a variable.
use crave.Prelude.{map, ℕ, suc, ◌≤◌, ◌≡◌, refl, [], ◌∷◌, true, false, none, some, arith}
use crave.Prelude.Int.{pos}
use crave.Ir.{less_opr, logical_and_opr}
use crave.Frontend.{
  Traits, Target, Expr, target, vector_term, placeholder_term, binary_expr, inside_expr,
  foreach_expr, subscript, Context, new_value, narrow, to_uint64,
}
use crave.Frontend.Assign.{set_value, with_digits, with_digit, digit, to_bits, set_value-to_bits}
use crave.Frontend.Literal.{Represents, new_value-Represents}

abbrev byte : Traits
byte = record { width = 8; sign = false }

abbrev int_traits : Traits
int_traits = record { width = 32; sign = true }

abbrev x : Target ℕ
x = record { id = 2; traits = byte; written = some 100 }

-- The ids up to 3 are handed out.
abbrev at_first : Context ℕ
at_first = record {
  variables = λ v. none;
  vector_variables = λ v. none;
  read_references = [];
  write_references = [];
  dist_references = [];
  dist_ref_to_var_map = λ v. none;
  last_id = 3;
}

-- `foreach(v, v[_i] < x)` and `inside(x, {5, 3, 5})`
abbrev below : Expr ℕ
below =
    foreach_expr (vector_term 3 byte)
      (binary_expr less_opr (subscript (vector_term 3 byte) (placeholder_term 1)) (target x))

abbrev both_parts : Expr ℕ
both_parts = binary_expr logical_and_opr below (inside_expr x (pos 5 ∷ pos 3 ∷ pos 5 ∷ []))

new_value-Represents_example :
    Represents (new_value int_traits (pos 5)) (pos 5)
    × ((new_value int_traits (pos 5)).bitsize ≤ 32)
new_value-Represents_example =
    new_value-Represents int_traits (pos 5) (omega arith) (omega arith) (omega arith)

five : new_value int_traits (pos 5) ≡ record { value = 5; bitsize = 3; sign = false }
unfolding new_value narrow to_uint64
five = refl

set_value-to_bits_example :
    set_value 8 true (some (λ (s : ℕ). (true, suc s))) (map digit (to_bits 8 200)) 0 ≡ (200, 0)
set_value-to_bits_example =
    set_value-to_bits 8 true (some (λ (s : ℕ). (true, suc s))) 200 0 (omega arith) (omega arith)

-- An unknown digit is drawn.
unknown_digit :
    set_value 8 false (some (λ (s : ℕ). (true, suc s))) (b'1' ∷ b'X' ∷ b'0' ∷ []) 0 ≡ (6, 1)
unfolding set_value with_digits with_digit
unknown_digit = refl
