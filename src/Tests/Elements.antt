-- ===== src/Tests/Elements.antt =====
-- The theorems on the elements of a vector, at the constraint that each element is above the one before
-- it and below a variable, for three elements.
use Prim.Native.String.{String}
use crave.Prelude.{
  ℕ, suc, ◌≡◌, refl, List, [], ◌∷◌, true, false, Option, none, some, ◌==◌, if◌then◌else◌,
}
use crave.Prelude.Result.{Result, ok}
use crave.Prelude.Int.{ℤ, pos, of_unsigned, sub_int}
use crave.Ir.{
  Node, Constant, for_each, binary, less_opr, minus_opr, logical_and_opr, vector_expr,
  vector_access, placeholder, variable_expr, constant,
}
use crave.Ir.Replace.{Element, start_at, visit}
use crave.Ir.Replace.Subscript.{binary_subscript}
use crave.Ir.Replace.Reference.{instantiate, IsTyped, chosen}
use crave.Ir.Replace.Follows.{ids_of}
use crave.Ir.Replace.Correct.{Yields, visit-Yields}
use crave.Constraint.{UserConstraint, vector}
use crave.Solver.Problem.{Problem}
use crave.VectorGenerator.{VectorSolver}
use crave.VectorGenerator.Build.{Vectors}

abbrev one : Constant
one = record { value = 1; bitsize = 32; sign = true }

abbrev element_at : Node → Node
element_at i = vector_access (vector_expr 3 8 false) i

-- `foreach(v, v[_i - 1] < v[_i] && v[_i] < x)`
abbrev rising : Node
rising = for_each (vector_expr 3 8 false) (
    binary logical_and_opr
      (binary less_opr (element_at (binary minus_opr (placeholder 1) (constant one)))
        (element_at (placeholder 1)))
      (binary less_opr (element_at (placeholder 1)) (variable_expr 2 8 false)))

abbrev pub kinds : ℕ → Option Node
kinds v =
    if v == 1
    then some (placeholder 1)
    else if v == 2
    then some (variable_expr 2 8 false)
    else if v == 3
    then some (vector_expr 3 8 false)
    else none

rising-IsTyped : IsTyped kinds rising
rising-IsTyped = (
  ((3, 8, false, refl, refl, (refl, tt)), (3, 8, false, refl, refl, refl)),
  ((3, 8, false, refl, refl, refl), refl),
)

abbrev new_element : ℕ → Element
new_element v = record { id = v; bitsize = 1; sign = true }

abbrev three : List Element
three = new_element 11 ∷ new_element 12 ∷ new_element 13 ∷ []

rising_at : ℕ → Result (Option Node × ℤ)
rising_at i = instantiate (ids_of three) i rising

abbrev variable : ℕ → Node
variable v = variable_expr v 8 false

-- At the first index the subscript -1 is out of range.
rising_at_first : rising_at 0 ≡ ok (none, pos 0)
unfolding rising_at instantiate chosen binary_subscript sub_int of_unsigned
rising_at_first = refl

rising_at_last :
    rising_at 2
    ≡ ok (
      some (
          binary logical_and_opr
            (binary less_opr (variable 12) (variable 13))
            (binary less_opr (variable 13) (variable 2))),
      pos 0,
    )
unfolding rising_at instantiate chosen binary_subscript sub_int of_unsigned
rising_at_last = refl

visit-Yields_example :
    Yields (ids_of three) (instantiate (ids_of three) 2 rising) (visit rising (start_at three 2))
visit-Yields_example =
    visit-Yields kinds rising (new_element 11) (new_element 12 ∷ new_element 13 ∷ []) 2
      rising-IsTyped

abbrev rising_constraint : UserConstraint
rising_constraint = record {
  id = 0;
  expr = rising;
  name = "rising";
  support_vars = 3 ∷ [];
  soft = false;
  cover = false;
  enabled = true;
  complexity = 0;
  kind = vector false;
}

-- A memory that counts the ids, and has the values of the vector 3.
abbrev numbered : Vectors (ℕ × List String) ℕ
numbered = record {
  size_var = λ v. if v == 3 then some 2 else none;
  new_var_id = λ m. (suc m.0, (suc m.0, m.1));
  set_values = λ v values m. (m.0, values);
  gen_values = λ v n m r. (m, r);
  to_unsigned = λ s r. (3, r);
}

abbrev rising_solver : VectorSolver
rising_solver = record { vector_id = 3; constraints = rising_constraint ∷ []; vec_elements = [] }
