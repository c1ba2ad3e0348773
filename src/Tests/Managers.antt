-- ===== src/Tests/Managers.antt =====
-- The theorem on the two switches, at a manager with one constraint.
use crave.Prelude.{◌≡◌, refl, true, false, some}
use crave.Ir.{variable_expr}
use crave.Constraint.Manager.{
  World, new_manager, new_constraint, insert_constraint, enable_constraint, disable_constraint,
}
use crave.Constraint.Manager.Toggle.{IsBack, enable_constraint-disable_constraint}
use crave.Constraint.{UserConstraint}

abbrev bounded : UserConstraint
bounded = new_constraint "bounded" 1 (variable_expr 1 1 true) false false 0

abbrev one_constraint : World
one_constraint =
    insert_constraint "bounded" bounded
      (record { heap = record { next = 0; cell = λ p. bounded }; mng = new_manager 1 })

has_bounded : one_constraint.mng.constr_map "bounded" ≡ some 0
unfolding insert_constraint
has_bounded = refl

bounded_on : (one_constraint.heap.cell 0).enabled ≡ true
unfolding insert_constraint new_constraint
bounded_on = refl

enable_constraint-disable_constraint_example :
    (v : World) × (enable_constraint "bounded" (disable_constraint "bounded" one_constraint).1
      ≡ (true, v))
    × ((disable_constraint "bounded" one_constraint).0 ≡ true)
    × IsBack one_constraint v
enable_constraint-disable_constraint_example =
    enable_constraint-disable_constraint "bounded" 0 one_constraint has_bounded bounded_on
