-- ===== src/Constraint/Partitioner.antt =====
-- crave/src/lib/ConstraintPartitioner.cpp: splits the enabled constraints into groups that share no
-- variable, so that each group is solved on its own.
pub mod Rules
pub mod Groups
pub mod Correct
pub mod State
use crave.Prelude.{
  ℕ, zero, suc, List, [], ◌∷◌, ◌++◌, Bool, true, false, not, ◌||◌, Option, none, some, length,
  if◌then◌else◌,
}
use crave.Prelude.IntSet.{IntSet, insert_all, intersection, is_empty}
use crave.Constraint.{UserConstraint}
use crave.Constraint.Partition.{ConstraintPartition, empty_partition, add}

-- `!v_intersection.empty()`
unfoldable pub shares_vars : IntSet → UserConstraint → Bool
shares_vars vars c = not (is_empty (intersection vars c.support_vars))

-- a hit of the inner loop: `cp->add(c)`, then the union of the supports
unfoldable pub absorb : ConstraintPartition → UserConstraint → ConstraintPartition
absorb cp c =
    let cp' = add cp c in record cp' { support_vars = insert_all c.support_vars cp'.support_vars }

pub record Sweep : Type 0 where
  pub changed : Bool
  pub grown : ConstraintPartition
  pub rest : List UserConstraint

-- The inner `while` over `lc`: what meets the partition is moved into it, and widens it at once for
-- the constraints behind.
unfoldable pub sweep : ConstraintPartition → List UserConstraint → Sweep
sweep cp [] = record { changed = false; grown = cp; rest = [] }
sweep cp (c ∷ lc) =
    let hit = shares_vars cp.support_vars c in
    let s = sweep (if hit then absorb cp c else cp) lc in
    record {
      changed = hit || s.changed;
      grown = s.grown;
      rest = if hit then s.rest else c ∷ s.rest;
    }

-- The outer `while (true)`, on fuel: sweeps until one changes nothing.
unfoldable pub sweeps :
    ℕ
    → ConstraintPartition
    → List UserConstraint
    → Option (ConstraintPartition × List UserConstraint)
sweeps zero cp lc = none
sweeps (suc fuel) cp lc =
    let s = sweep cp lc in
    let again = sweeps fuel s.grown s.rest in if s.changed then again else some (s.grown, s.rest)

-- the partition of the first constraint alone: `support_vars_ = c->support_vars_`, then `add(c)`
unfoldable pub seed : UserConstraint → ConstraintPartition
seed c = add (record empty_partition { support_vars = c.support_vars }) c

-- `maximizePartition` of a list with front `c`: each sweep but the last takes a constraint, so as
-- many sweeps as there are constraints are enough.
unfoldable pub maximize_partition :
    UserConstraint → List UserConstraint → Option (ConstraintPartition × List UserConstraint)
maximize_partition c lc = sweeps (suc (length lc)) (seed c) lc

-- The loop of `partition`, on fuel: partitions are appended to those there are.
unfoldable pub partition_loop :
    ℕ → List UserConstraint → List ConstraintPartition → Option (List ConstraintPartition)
partition_loop fuel [] ps = some ps
partition_loop zero (c ∷ lc) ps = none
partition_loop (suc fuel) (c ∷ lc) ps = elim (maximize_partition c lc) [
  | none ↦ none
  | some (cp, rest) ↦ partition_loop fuel rest (ps ++ cp ∷ [])
]
