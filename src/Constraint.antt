-- ===== src/Constraint.antt =====
-- crave/src/crave/ir/UserConstraintType.hpp, crave/src/crave/ir/UserVectorConstraint.hpp: a named
-- constraint with the ids that it reads. The subclass for vectors is the field `kind`.
pub mod Partition
pub mod Partitioner
pub mod Manager
pub mod VectorId
use Prim.Native.String.{String}
use crave.Prelude.{ℕ, List, Bool, true, false, [], ◌∷◌}
use crave.Prelude.Result.{Result, ok, err, undefined}
use crave.Prelude.IntSet.{IntSet}
use crave.Ir.{Node}

-- `UserConstraint`, or `UserVectorConstraint` with its field `unique_`
pub data Kind : Type 0 where
  plain : Kind
  vector : Bool → Kind

pub record UserConstraint : Type 0 where
  pub id : ℕ
  pub expr : Node
  pub name : String
  pub support_vars : IntSet
  pub soft : Bool
  pub cover : Bool
  pub enabled : Bool
  pub complexity : ℕ
  pub kind : Kind

-- `isVectorConstraint()`
abbrev pub is_vector_constraint : UserConstraint → Bool
is_vector_constraint c = elim c.kind [ plain ↦ false | vector u ↦ true ]

-- `isUnique()`, of a vector constraint
abbrev pub is_unique : UserConstraint → Bool
is_unique c = elim c.kind [ plain ↦ false | vector u ↦ u ]

-- `getVectorId()`: `*support_vars_.begin()`, undefined on the empty set
unfoldable pub get_vector_id : UserConstraint → Result ℕ
get_vector_id c = elim c.support_vars [ [] ↦ err undefined | v ∷ _ ↦ ok v ]
