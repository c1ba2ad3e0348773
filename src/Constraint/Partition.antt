-- ===== src/Constraint/Partition.antt =====
-- crave/src/lib/ConstraintPartition.cpp: the constraints that are solved together. The partition
-- holds pointers; after `add` it is only read, and what is read of a constraint never changes after
-- its construction (`enabled_` is read before, in `mergeConstraints`), so the model holds values.
use crave.Prelude.{ℕ, List, [], ◌∷◌, ◌++◌, Bool, not, ◌&&◌, ltb, ◌==◌, if◌then◌else◌, false}
use crave.Prelude.IntSet.{IntSet, contains}
use crave.Constraint.{UserConstraint}

-- `single_variable v` is the entry of `singleVariableConstraintMap_` at `v`; an entry exists only
-- with a constraint in it, so no entry is the empty list.
pub record ConstraintPartition : Type 0 where
  pub constraints : List UserConstraint
  pub support_vars : IntSet
  pub single_variable : ℕ → List UserConstraint

-- `ConstraintPartition()`
abbrev pub empty_partition : ConstraintPartition
empty_partition = record { constraints = []; support_vars = []; single_variable = λ v. [] }

-- the search and the insertion in `add`: behind every constraint with a larger id in front
unfoldable pub insert_by_id : UserConstraint → List UserConstraint → List UserConstraint
insert_by_id c [] = c ∷ []
insert_by_id c (d ∷ ds) = if ltb c.id d.id then d ∷ insert_by_id c ds else c ∷ d ∷ ds

-- `support_vars_.size() == 1`, with the one id
abbrev single_var : IntSet → ℕ → Bool
single_var [] v = false
single_var (x ∷ []) v = x == v
single_var (x ∷ y ∷ ys) v = false

-- `add(c)`: only hard constraints over one variable go into the map.
unfoldable pub add : ConstraintPartition → UserConstraint → ConstraintPartition
add cp c = record cp {
  constraints = insert_by_id c cp.constraints;
  single_variable = λ v.
      if not c.soft && not c.cover && single_var c.support_vars v
      then cp.single_variable v ++ c ∷ []
      else cp.single_variable v;
}

-- `containsVar(id)`
unfoldable pub contains_var : ConstraintPartition → ℕ → Bool
contains_var cp v = contains v cp.support_vars
