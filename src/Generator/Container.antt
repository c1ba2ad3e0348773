-- ===== src/Generator/Container.antt =====
-- crave/src/crave/ir/VariableContainer.hpp and the constructor in crave/src/lib/VariableSolver.cpp: the
-- variables of a program and its references to them, and the part of these that belongs to a
-- partition. A reference reads or writes the memory of the program, which is a parameter.
use Prim.Native.String.{String}
use crave.Prelude.{
  ℕ, List, [], ◌∷◌, Bool, true, false, Option, none, some, if◌then◌else◌, ◌==◌, All, Bool-cases,
  inl, inr,
}
use crave.Prelude.Result.{Result, ok, assert_that, ◌>>=◌, ◌>>◌}
use crave.Prelude.IntSet.{IntSet}
use crave.Ir.{Node}
use crave.Constraint.Partition.{ConstraintPartition, contains_var}

-- `variables` by its keys: the entry of a key is the variable with that id. A read reference gives an
-- expression, one with a distribution draws a number for it; a write reference takes a value.
pub record VariableContainer (M : Type 0) : Type 0 where
  pub variables : ℕ → Bool
  pub read_references : List (ℕ × (M → Node))
  pub write_references : List (ℕ × (String → M → M))
  pub dist_references : List (ℕ × (M → Node × M))
  pub dist_ref_to_var_map : ℕ → Option ℕ

-- the references of a list whose id is in the partition
unfoldable pub select_refs : {A : Type 0} → ConstraintPartition → List (ℕ × A) → List (ℕ × A)
select_refs cp [] = []
select_refs cp (pair ∷ pairs) =
    let rest = select_refs cp pairs in if contains_var cp pair.0 then pair ∷ rest else rest

-- `find(key) != end()`
abbrev pub has_entry : (ℕ → Option ℕ) → ℕ → Bool
has_entry m k = elim (m k) [ none ↦ false | some v ↦ true ]

-- the loop over `dist_references`: the entries of the map, and the assertion that they exist
unfoldable pub select_map : {A : Type 0} → List (ℕ × A) → (ℕ → Option ℕ) → Result (ℕ → Option ℕ)
select_map [] m = ok (λ k. none)
select_map (pair ∷ pairs) m = do
  rest ← select_map pairs m
  assert_that (has_entry m pair.0)
  ok (λ k. if pair.0 == k then m k else rest k)

-- the loop over the support set of the partition
unfoldable pub select_variables : IntSet → (ℕ → Bool) → Result (ℕ → Bool)
select_variables [] variables = ok (λ v. false)
select_variables (id ∷ ids) variables = do
  rest ← select_variables ids variables
  assert_that (variables id)
  ok (λ v. if id == v then true else rest v)

-- `VariableSolver(vcon, cp)`, what it makes of `vcon`
unfoldable pub restrict :
    {M : Type 0} → VariableContainer M → ConstraintPartition → Result (VariableContainer M)
restrict vcon cp = do
  let dists = select_refs cp vcon.dist_references
  to_var ← select_map dists vcon.dist_ref_to_var_map
  variables ← select_variables cp.support_vars vcon.variables
  ok (record {
    variables = variables;
    read_references = select_refs cp vcon.read_references;
    write_references = select_refs cp vcon.write_references;
    dist_references = dists;
    dist_ref_to_var_map = to_var;
  })

-- A property of all references is one of the selected ones.
pub select_refs-All :
    {A : Type 0} (P : ℕ × A → Type 0) (cp : ConstraintPartition) (pairs : List (ℕ × A))
    → All P pairs
    → All P (select_refs cp pairs)
unfolding select_refs
select_refs-All P cp [] h = tt
select_refs-All P cp (pair ∷ pairs) h = elim (Bool-cases (contains_var cp pair.0)) [
  | inl e ↦ rw (select_refs, e) (h.0, select_refs-All P cp pairs h.1)
  | inr e ↦ rw (select_refs, e) (select_refs-All P cp pairs h.1)
]
