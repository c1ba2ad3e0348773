-- ===== src/Constraint/Manager/Laws.antt =====
-- The invariant of crave/src/lib/ConstraintManager.cpp, and what its two switches do to a manager.
use Prim.Native.String.{String}
use mathlib.Core.Bool.{xor}
use text.Mathlib.Text.{◌==◌ as str_eq}
use text.Mathlib.TextEquality.{eq_iff}
use crave.Prelude.{
  ℕ, ◌<◌, ◌≡◌, refl, inl, inr, ◌∙◌, Bool, true, false, not, ◌&&◌, ◌||◌, none, some, ◌==◌, arith,
  All, All-map, Bool-cases, Option-cases,
}
use crave.Constraint.Manager.{
  Heap, new_manager, World, write_enabled, switch, enable_constraint, disable_constraint,
  is_constraint_enabled, has_key,
}

-- A key leads to a constraint of that name, and a constraint of the list is found by its name.
pub record IsWellFormed (w : World) : Type 0 where
  pub allocated : (key : String) (p : ℕ) → w.mng.constr_map key ≡ some p → p < w.heap.next
  pub named : (key : String) (p : ℕ) → w.mng.constr_map key ≡ some p → (w.heap.cell p).name ≡ key
  pub listed :
      All
        (λ p. (p < w.heap.next) × (w.mng.constr_map (w.heap.cell p).name ≡ some p))
        w.mng.constraints

pub new_manager-IsWellFormed :
    (id : ℕ) (h : Heap) → IsWellFormed (record { heap = h; mng = new_manager id })
unfolding new_manager
new_manager-IsWellFormed id h = record {
  allocated = λ key p e. cc;
  named = λ key p e. cc;
  listed = tt;
}

-- Switching a constraint on or off changes no name.
name-write_enabled :
    (p q : ℕ) (b : Bool) (h : Heap) → ((write_enabled p b h).cell q).name ≡ (h.cell q).name
unfolding write_enabled
name-write_enabled p q b h = ground arith

switch-IsWellFormed : (p : ℕ) (b : Bool) (w : World) → IsWellFormed w → IsWellFormed (switch p b w)
unfolding switch
switch-IsWellFormed p b w v = record {
  allocated = v.allocated;
  named = λ key q e. name-write_enabled p q b w.heap ∙ v.named key q e;
  listed =
      All-map _
        (λ q.
          (q < w.heap.next) × (w.mng.constr_map ((write_enabled p b w.heap).cell q).name ≡ some q))
        (λ q h. (h.0, rw (name-write_enabled p q b w.heap) h.1)) w.mng.constraints v.listed;
}

-- What both calls promise, with `b` for the value that they write: the answer says whether there is
-- such a constraint; it has the value afterwards; every other key answers as before; and the
-- manager is marked as changed exactly if the value was another.
pub record IsSwitched (b : Bool) (key : String) (w : World) (found : Bool) (w' : World)
    : Type 0 where
  pub valid : IsWellFormed w'
  pub answer : found ≡ has_key key w
  pub now : is_constraint_enabled key w' ≡ (found && b)
  pub others :
      (j : String) → str_eq key j ≡ false → is_constraint_enabled j w' ≡ is_constraint_enabled j w
  pub flagged : w'.mng.changed ≡ (w.mng.changed || found && xor b (is_constraint_enabled key w))

module _ (key : String) (w : World) (v : IsWellFormed w) where
  absent-IsSwitched : (b : Bool) → w.mng.constr_map key ≡ none → IsSwitched b key w false w
  unfolding is_constraint_enabled xor
  absent-IsSwitched b e = record {
    valid = v;
    answer = ground arith;
    now = ground arith;
    others = λ j d. refl;
    flagged = ground arith;
  }

  -- the value is there already
  kept-IsSwitched :
      (b : Bool) (p : ℕ)
      → w.mng.constr_map key ≡ some p
      → (w.heap.cell p).enabled ≡ b
      → IsSwitched b key w true w
  unfolding is_constraint_enabled xor
  kept-IsSwitched b p e h = record {
    valid = v;
    answer = ground arith;
    now = ground arith;
    others = λ j d. refl;
    flagged = ground arith;
  }

  -- Two keys never lead to one constraint, since each has one name.
  apart :
      (j : String) (p q : ℕ)
      → str_eq key j ≡ false
      → w.mng.constr_map key ≡ some p
      → w.mng.constr_map j ≡ some q
      → (p == q) ≡ false
  apart j p q d e f = ground (arith, v.named key p e, v.named j q f, eq_iff key j)

  switch-IsSwitched :
      (b : Bool) (p : ℕ)
      → w.mng.constr_map key ≡ some p
      → (w.heap.cell p).enabled ≡ not b
      → IsSwitched b key w true (switch p b w)
  unfolding is_constraint_enabled switch write_enabled xor
  switch-IsSwitched b p e h = record {
    valid = switch-IsWellFormed p b w v;
    answer = ground arith;
    now = ground arith;
    others = λ j d. elim (Option-cases (w.mng.constr_map j)) [
      | inl absent ↦ ground arith
      | inr (q, f) ↦ ground (arith, apart j p q d e f)
    ];
    flagged = ground arith;
  }

-- In a well-formed manager, `enableConstraint` does what `IsSwitched` says for the value true: it
-- answers whether the key is there, leaves its constraint enabled and every other key as it was, keeps
-- the invariant, and marks the manager as changed exactly if the constraint was disabled.
pub enable_constraint-IsSwitched :
    (key : String) (w : World)
    → IsWellFormed w
    → IsSwitched true key w (enable_constraint key w).0 (enable_constraint key w).1
unfolding enable_constraint
enable_constraint-IsSwitched key w v = elim (Option-cases (w.mng.constr_map key)) [
  | inl absent ↦ rw (absent, enable_constraint) (absent-IsSwitched key w v true absent)
  | inr (p, e) ↦ (elim (Bool-cases (w.heap.cell p).enabled) [
    | inl on ↦ rw (e, enable_constraint, on) (kept-IsSwitched key w v true p e on)
    | inr off ↦ rw (e, enable_constraint, off) (switch-IsSwitched key w v true p e off)
  ])
]

-- In a well-formed manager, `disableConstraint` does what `IsSwitched` says for the value false: it
-- answers whether the key is there, leaves its constraint disabled and every other key as it was,
-- keeps the invariant, and marks the manager as changed exactly if the constraint was enabled.
pub disable_constraint-IsSwitched :
    (key : String) (w : World)
    → IsWellFormed w
    → IsSwitched false key w (disable_constraint key w).0 (disable_constraint key w).1
unfolding disable_constraint
disable_constraint-IsSwitched key w v = elim (Option-cases (w.mng.constr_map key)) [
  | inl absent ↦ rw (absent, disable_constraint) (absent-IsSwitched key w v false absent)
  | inr (p, e) ↦ (elim (Bool-cases (w.heap.cell p).enabled) [
    | inl on ↦ rw (e, disable_constraint, on) (switch-IsSwitched key w v false p e on)
    | inr off ↦ rw (e, disable_constraint, off) (kept-IsSwitched key w v false p e off)
  ])
]
