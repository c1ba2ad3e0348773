-- ===== src/Tests.antt =====
-- The theorems at concrete inputs: three constraints over the variables 1, 2 and 5, of which the
-- first two share a variable; a distribution of two ranges; and a generator of numbers that counts.
mod Eval
mod Coverage
mod Vectors
mod Elements
mod Frontend
mod Solvers
mod Generators
mod Defaults
mod Engines
mod RandObjs
mod Objects
mod Managers
mod Seeds
use Prim.Native.Nat.{min}
use Prim.Native.String.{String}
use mathlib.Core.List.{Memᴰ}
use crave.Prelude.{
  ℕ, ◌+◌, ◌-◌, ◌≤◌, ◌<◌, ◌≡◌, ◌≢◌, ◌⊎◌, ◌↔◌, refl, List, [], ◌∷◌, ◌++◌, true, false, some, arith,
  length, ◌^◌,
}
use crave.Prelude.Result.{Fault, ok, err, runtime_error, Returns}
use crave.Prelude.IntSet.{contains, IsAscending}
use crave.Ir.{Node, variable_expr, constant, binary, less_opr, equal_opr}
use crave.Ir.Support.{support_set, occurs, support_set-exact}
use crave.Ir.Complexity.{
  get_complexity_estimation, is_scalar, complexity, get_complexity_estimation-exact,
}
use crave.Ir.FixWidth.{fix_width}
use crave.Ir.FixWidth.Balance.{
  Balanced, erase, fix_width-erase, fix_width-Balanced, wide_choice, fix_width_choice_unbalanced,
}
use crave.Constraint.{UserConstraint}
use crave.Constraint.Partition.{ConstraintPartition}
use crave.Constraint.Partitioner.{partition_loop}
use crave.Constraint.Partitioner.Correct.{IsSplit, partition_loop_correct}
use crave.Constraint.Partitioner.State.{
  ConstraintPartitioner, reset, merge_constraints, partition, enabled_of, partition-merge-reset,
}
use crave.Constraint.Manager.{
  World, new_manager, enable_constraint, disable_constraint, make_constraint, new_constraint,
  insert_constraint, deref,
}
use crave.Constraint.Manager.Laws.{
  IsWellFormed, IsSwitched, new_manager-IsWellFormed, enable_constraint-IsSwitched,
  disable_constraint-IsSwitched,
}
use crave.Constraint.Manager.Make.{
  IsMade, is_accepted, insert_constraint-IsWellFormed, make_constraint-exact,
}
use crave.Distribution.{
  WeightedRange, weighted_range, range, Distribution, overlap, overlaps_any, next_accum, back,
  add_range, Random, next_value,
}
use crave.Distribution.Range.{range-weight}
use crave.Distribution.Overlap.{Contains, Shares, overlap-exact}
use crave.Distribution.Weights.{weights, IsValid, add_range-IsValid}
use crave.Distribution.Next.{next_value-weighted, next_value-in_range}

-- `v < 5`, over 8 bits
abbrev small : ℕ → Node
small v =
    binary less_opr (variable_expr v 8 false)
      (constant (record { value = 5; bitsize = 3; sign = false }))

-- `v == w`, where `w` has 4 bits
abbrev same : ℕ → ℕ → Node
same v w = binary equal_opr (variable_expr v 8 false) (variable_expr w 4 false)

abbrev start_world : World
start_world = record {
  heap = record { next = 0; cell = λ q. new_constraint "" 0 (small 0) false false 0 };
  mng = new_manager 1;
}

abbrev one_world : World
one_world = insert_constraint "a" (new_constraint "a" 0 (small 1) false false 8) start_world

abbrev two_world : World
two_world = insert_constraint "b" (new_constraint "b" 1 (same 1 2) false false 12) one_world

abbrev full_world : World
full_world = insert_constraint "c" (new_constraint "c" 2 (small 5) false false 8) two_world

start_world-IsWellFormed : IsWellFormed start_world
start_world-IsWellFormed = new_manager-IsWellFormed 1 start_world.heap

one_world-IsWellFormed : IsWellFormed one_world
unfolding new_constraint new_manager
one_world-IsWellFormed =
    insert_constraint-IsWellFormed "a" _ start_world start_world-IsWellFormed refl refl

abbrev fresh_partitioner : ConstraintPartitioner
fresh_partitioner = record {
  constr_mngs = [];
  constraints = [];
  partitions = [];
  vec_constraints = [];
}

abbrev three_constraints : List UserConstraint
three_constraints =
    new_constraint "a" 0 (small 1) false false 8
    ∷ new_constraint "c" 2 (small 5) false false 8
    ∷ new_constraint "b" 1 (same 1 2) false false 12
    ∷ []

partition-merge-reset_example :
    (st' : ConstraintPartitioner) × (partition
        (merge_constraints full_world (reset fresh_partitioner))
      ≡ some st')
    × (st'.vec_constraints ≡ enabled_of true (deref full_world.heap full_world.mng.constraints))
    × (st'.constraints ≡ [])
    × IsSplit
        (enabled_of false (deref full_world.heap full_world.mng.constraints))
        (enabled_of false (deref full_world.heap full_world.mng.constraints))
        st'.partitions
partition-merge-reset_example = partition-merge-reset full_world fresh_partitioner

partition_loop_correct_example :
    (ps : List ConstraintPartition) × (partition_loop
        (length three_constraints)
        three_constraints
        []
      ≡ some ps)
    × IsSplit three_constraints three_constraints ps
partition_loop_correct_example = partition_loop_correct three_constraints

make_constraint-exact_example :
    (is_accepted "b" (same 1 2) false false one_world ≡ true
      → (p : ℕ) × (w' : World) × (make_constraint "b" 1 (same 1 2) false false one_world
          ≡ ok (p, w'))
        × IsMade "b" 1 (same 1 2) false false one_world p w')
    × (is_accepted "b" (same 1 2) false false one_world ≡ false
        → (f : Fault) × (make_constraint "b" 1 (same 1 2) false false one_world ≡ err f))
make_constraint-exact_example =
    make_constraint-exact "b" 1 (same 1 2) false false one_world one_world-IsWellFormed

enable_constraint-IsSwitched_example :
    IsSwitched true "a" one_world
      (enable_constraint "a" one_world).0
      (enable_constraint "a" one_world).1
enable_constraint-IsSwitched_example =
    enable_constraint-IsSwitched "a" one_world one_world-IsWellFormed

disable_constraint-IsSwitched_example :
    IsSwitched false "a" one_world
      (disable_constraint "a" one_world).0
      (disable_constraint "a" one_world).1
disable_constraint-IsSwitched_example =
    disable_constraint-IsSwitched "a" one_world one_world-IsWellFormed

support_set-exact_example :
    IsAscending (support_set (same 2 1))
    × ((v : ℕ) → contains v (support_set (same 2 1)) ≡ occurs v (same 2 1))
support_set-exact_example = support_set-exact (same 2 1)

get_complexity_estimation-exact_example :
    (is_scalar (same 2 1) ≡ true
      → get_complexity_estimation (same 2 1) ≡ ok (complexity (same 2 1)))
    × (is_scalar (same 2 1) ≡ false
        → (m : String) × (get_complexity_estimation (same 2 1) ≡ err (runtime_error m)))
get_complexity_estimation-exact_example = get_complexity_estimation-exact (same 2 1)

fix_width-Balanced_example : Returns (fix_width (same 2 1)) Balanced
fix_width-Balanced_example = fix_width-Balanced (same 2 1) (tt, tt)

fix_width_choice_unbalanced_example :
    Returns (fix_width (wide_choice equal_opr 1 2 3 4 6 true)) (λ m. ¬ Balanced m)
fix_width_choice_unbalanced_example = fix_width_choice_unbalanced equal_opr 1 2 3 4 6 true

abbrev first_range : WeightedRange
first_range = record { left = 0; right = 9; weight = 3; accum_weight = 3 }

abbrev second_range : WeightedRange
second_range = record { left = 10; right = 19; weight = 2; accum_weight = 5 }

one_range-IsValid : IsValid (first_range ∷ [])
unfolding weights
one_range-IsValid = record {
  accumulates = (omega arith, tt);
  fits = omega arith;
  ordered = (omega arith, tt);
}

two_ranges-IsValid : IsValid (first_range ∷ second_range ∷ [])
unfolding weights
two_ranges-IsValid = record {
  accumulates = (omega arith, (omega arith, tt));
  fits = omega arith;
  ordered = (omega arith, (omega arith, tt));
}

two_ranges-weights : 0 < weights (first_range ∷ second_range ∷ [])
unfolding weights
two_ranges-weights = omega arith

-- numbers counted up, cut off at the bounds
abbrev counter : Random
counter = record {
  State = ℕ;
  uniform = λ a b g. (min (a + g) b, g + 1);
  uniform_range = λ a b g h. (omega arith, omega arith);
}

overlap-exact_example :
    (first_range.left ≢ second_range.left
      → (overlap first_range second_range ≡ true) ↔ Shares first_range second_range)
    × (first_range.left ≡ second_range.left
        → (overlap first_range second_range ≡ false) × Shares first_range second_range)
overlap-exact_example = overlap-exact first_range second_range (omega arith) (omega arith)

add_range-accepted :
    add_range (first_range ∷ []) (weighted_range 10 19 2) ≡ ok (first_range ∷ second_range ∷ [])
unfolding add_range overlaps_any overlap next_accum back
add_range-accepted = refl

add_range-IsValid_example :
    IsValid (first_range ∷ second_range ∷ [])
    × (first_range ∷ second_range ∷ []
        ≡ (first_range ∷ [])
          ++ record (weighted_range 10 19 2) { accum_weight = weights (first_range ∷ []) + 2 } ∷ [])
    × (weights (first_range ∷ second_range ∷ []) ≡ weights (first_range ∷ []) + 2)
unfolding weights
add_range-IsValid_example =
    add_range-IsValid (first_range ∷ []) (weighted_range 10 19 2) (first_range ∷ second_range ∷ [])
      one_range-IsValid (omega arith) (omega arith) add_range-accepted

next_value-weighted_example :
    let place = (counter.uniform 0 (weights (first_range ∷ second_range ∷ []) - 1) 4).0 in
    (before : Distribution) × (z : WeightedRange) × (after : Distribution) × (first_range
        ∷ second_range ∷ []
      ≡ before ++ z ∷ after)
    × (weights before ≤ place)
    × (place < weights before + z.weight)
    × Contains z (next_value counter 8 (first_range ∷ second_range ∷ []) 4).0
next_value-weighted_example =
    next_value-weighted counter 8 first_range second_range [] 4 two_ranges-IsValid
      two_ranges-weights
