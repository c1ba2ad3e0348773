-- ===== src/Constraint/Partitioner/State.antt =====
-- The object of crave/src/lib/ConstraintPartitioner.cpp: what `reset`, `mergeConstraints` and
-- `partition` make of its fields.
use mathlib.Core.List.{append-nil, append_assoc}
use crave.Prelude.{
  ◌≡◌, refl, sym, List, [], ◌∷◌, ◌++◌, Bool, true, false, not, ◌&&◌, Option, none, some, length,
  if◌then◌else◌, arith,
}
use crave.Prelude.IntSet.{IntSet, insert}
use crave.Constraint.{UserConstraint, is_vector_constraint}
use crave.Constraint.Partition.{ConstraintPartition}
use crave.Constraint.Partitioner.{partition_loop}
use crave.Constraint.Partitioner.Correct.{IsSplit, partition_loop_correct}
use crave.Constraint.Manager.{World, deref}

pub record ConstraintPartitioner : Type 0 where
  pub constr_mngs : IntSet
  pub constraints : List UserConstraint
  pub partitions : List ConstraintPartition
  pub vec_constraints : List UserConstraint

-- `reset()`, which is also the state of a new object
unfoldable pub reset : ConstraintPartitioner → ConstraintPartitioner
reset st = record { constr_mngs = []; constraints = []; partitions = []; vec_constraints = [] }

-- the body of the loop in `mergeConstraints`
unfoldable pub merge_one : UserConstraint → ConstraintPartitioner → ConstraintPartitioner
merge_one c st =
    if c.enabled
    then (if is_vector_constraint c
        then record st { vec_constraints = st.vec_constraints ++ c ∷ [] }
        else record st { constraints = st.constraints ++ c ∷ [] })
    else st

unfoldable pub merge_all : List UserConstraint → ConstraintPartitioner → ConstraintPartitioner
merge_all [] st = st
merge_all (c ∷ cs) st = merge_all cs (merge_one c st)

-- `mergeConstraints(mng)`
unfoldable pub merge_constraints : World → ConstraintPartitioner → ConstraintPartitioner
merge_constraints w st =
    merge_all (deref w.heap w.mng.constraints)
      (record st { constr_mngs = insert w.mng.id st.constr_mngs })

-- `partition()`: the fuel is the number of constraints, and `none` would be its running out.
unfoldable pub partition : ConstraintPartitioner → Option ConstraintPartitioner
partition st = elim (partition_loop (length st.constraints) st.constraints st.partitions) [
  | none ↦ none
  | some ps ↦ some (record st { constraints = []; partitions = ps })
]

-- The constraints that are enabled and of the kind asked for, in order.
unfoldable pub enabled_of : Bool → List UserConstraint → List UserConstraint
enabled_of v [] = []
enabled_of true (c ∷ cs) =
    if c.enabled && is_vector_constraint c then c ∷ enabled_of true cs else enabled_of true cs
enabled_of false (c ∷ cs) =
    if c.enabled && not (is_vector_constraint c)
    then c ∷ enabled_of false cs
    else enabled_of false cs

merge_all-enabled :
    (cs : List UserConstraint) (st : ConstraintPartitioner)
    → ((merge_all cs st).constraints ≡ st.constraints ++ enabled_of false cs)
      × ((merge_all cs st).vec_constraints ≡ st.vec_constraints ++ enabled_of true cs)
      × ((merge_all cs st).partitions ≡ st.partitions)
unfolding merge_all merge_one enabled_of
merge_all-enabled [] st = (sym (append-nil _), sym (append-nil _), refl)
merge_all-enabled (c ∷ cs) st = ground (
  arith,
  merge_all-enabled cs (merge_one c st),
  append_assoc st.constraints (c ∷ []) (enabled_of false cs),
  append_assoc st.vec_constraints (c ∷ []) (enabled_of true cs),
)

partition-of_loop :
    (st : ConstraintPartitioner) (cs : List UserConstraint) (ps : List ConstraintPartition)
    → st.constraints ≡ cs
    → st.partitions ≡ []
    → partition_loop (length cs) cs [] ≡ some ps
    → partition st ≡ some (record st { constraints = []; partitions = ps })
unfolding partition
partition-of_loop st cs ps p q e = ground arith

-- A merge adds the enabled constraints of a manager behind the others.
pub merge_constraints-enabled :
    (w : World) (st : ConstraintPartitioner)
    → ((merge_constraints w st).constraints
        ≡ st.constraints ++ enabled_of false (deref w.heap w.mng.constraints))
      × ((merge_constraints w st).vec_constraints
          ≡ st.vec_constraints ++ enabled_of true (deref w.heap w.mng.constraints))
      × ((merge_constraints w st).partitions ≡ st.partitions)
unfolding merge_constraints
merge_constraints-enabled w st = merge_all-enabled (deref w.heap w.mng.constraints) _

-- What was merged into a partitioner without partitions is split.
pub partition-IsSplit :
    (st : ConstraintPartitioner) (cs : List UserConstraint)
    → st.constraints ≡ cs
    → st.partitions ≡ []
    → (p : ConstraintPartitioner) × (partition st ≡ some p)
      × (p.vec_constraints ≡ st.vec_constraints)
      × IsSplit cs cs p.partitions
partition-IsSplit st cs e n =
    let (ps, f, sp) = partition_loop_correct cs in
    (record st { constraints = []; partitions = ps }, partition-of_loop st cs ps e n f, refl, sp)

-- Reset, merge of one manager and partition, as a generator does them, always return. The vector
-- constraints are the enabled ones of the manager, in its order, and the partitions split its
-- enabled plain constraints: each is in one partition, once; partitions share no variable; and each
-- is held together by shared variables.
pub partition-merge-reset :
    (w : World) (st : ConstraintPartitioner)
    → (st' : ConstraintPartitioner) × (partition (merge_constraints w (reset st)) ≡ some st')
      × (st'.vec_constraints ≡ enabled_of true (deref w.heap w.mng.constraints))
      × (st'.constraints ≡ [])
      × IsSplit
          (enabled_of false (deref w.heap w.mng.constraints))
          (enabled_of false (deref w.heap w.mng.constraints))
          st'.partitions
unfolding merge_constraints reset
partition-merge-reset w st =
    let cs = deref w.heap w.mng.constraints in
    let start : ConstraintPartitioner = record {
      constr_mngs = insert w.mng.id [];
      constraints = [];
      partitions = [];
      vec_constraints = [];
    } in
    let (p, v, q) = merge_all-enabled cs start in
    let (ps, e, sp) = partition_loop_correct (enabled_of false cs) in
    (
      record (merge_all cs start) { constraints = []; partitions = ps },
      partition-of_loop (merge_all cs start) (enabled_of false cs) ps p q e,
      v,
      refl,
      sp,
    )
