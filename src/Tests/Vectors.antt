-- ===== src/Tests/Vectors.antt =====
-- The theorems on vector constraints, at a constraint over all elements of the vector 3 that also reads
-- the variable 2, and one over the vector 4.
use crave.Prelude.{ℕ, ◌≡◌, refl, [], ◌∷◌, false}
use crave.Prelude.Result.{ok}
use crave.Ir.{
  Node, for_each, unique, binary, less_opr, vector_expr, vector_access, placeholder, variable_expr,
}
use crave.Ir.Support.{visit, support_set}
use crave.Prelude.IntSet.{insert}
use crave.Constraint.{UserConstraint, get_vector_id}
use crave.Constraint.Manager.{new_constraint}
use crave.VectorGenerator.{
  VectorSolverMap, reset_vectors, held, about, IsFiled, reset_vectors-about, find,
}

abbrev elements_below : Node
elements_below = for_each (vector_expr 3 8 false) (
    binary less_opr (vector_access (vector_expr 3 8 false) (placeholder 1))
      (variable_expr 2 8 false))

abbrev all_different : Node
all_different = unique (vector_expr 4 8 false)

abbrev first_constraint : UserConstraint
first_constraint = new_constraint "below" 0 elements_below false false 0

abbrev second_constraint : UserConstraint
second_constraint = new_constraint "different" 1 all_different false false 0

first_id : get_vector_id first_constraint ≡ ok 2
unfolding get_vector_id new_constraint support_set visit insert
first_id = refl

second_id : get_vector_id second_constraint ≡ ok 4
unfolding get_vector_id new_constraint support_set visit insert
second_id = refl

reset_vectors-about_example :
    (m : VectorSolverMap) × (reset_vectors (first_constraint ∷ second_constraint ∷ []) ≡ ok m)
    × IsFiled m
    × ((k : ℕ) → held (find k m) ≡ about k (first_constraint ∷ second_constraint ∷ []))
reset_vectors-about_example =
    reset_vectors-about (first_constraint ∷ second_constraint ∷ [])
      ((2, first_id), ((4, second_id), tt))
