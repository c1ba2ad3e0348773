-- ===== src/Constraint/Manager/Toggle.antt =====
-- `disableConstraint` and `enableConstraint` of crave/src/lib/ConstraintManager.cpp undo each other.
use Prim.Native.String.{String}
use mathlib.Core.Path.{subst}
use crave.Prelude.{
  ℕ, ◌≡◌, refl, sym, ap, ◌∙◌, Bool, true, false, some, ◌==◌, ==_iff, Bool-cases, inl, inr,
}
use crave.Constraint.{UserConstraint}
use crave.Constraint.Manager.{
  Heap, World, write_enabled, switch, enable_constraint, disable_constraint,
}

-- A constraint in which `enabled` is written twice.
rewritten : (b : Bool) (c : UserConstraint) → c.enabled ≡ b → record c { enabled = b } ≡ c
rewritten b c e = ap (λ x. record c { enabled = x }) (sym e)

write-back :
    (p : ℕ) (a b : Bool) (h : Heap) (q : ℕ)
    → (h.cell p).enabled ≡ b
    → (write_enabled p b (write_enabled p a h)).cell q ≡ h.cell q
unfolding write_enabled
write-back p a b h q e = elim (Bool-cases (p == q)) [
  | inr n ↦ rw (n) refl
  | inl y ↦
      let e' = subst (λ r. (h.cell r).enabled ≡ b) ((==_iff p q).0 y) e in
      rw y (rewritten b (h.cell q) e')
]

-- What two calls leave: all constraints as they were, the same names and the same list, and the note
-- of a change.
abbrev pub IsBack : World → World → Type 0
IsBack w v =
    ((q : ℕ) → v.heap.cell q ≡ w.heap.cell q)
    × (v.heap.next ≡ w.heap.next)
    × (v.mng.constr_map ≡ w.mng.constr_map)
    × (v.mng.constraints ≡ w.mng.constraints)
    × (v.mng.changed ≡ true)

disabled :
    (key : String) (p : ℕ) (w : World)
    → w.mng.constr_map key ≡ some p
    → (w.heap.cell p).enabled ≡ true
    → disable_constraint key w ≡ (true, switch p false w)
unfolding disable_constraint
disabled key p w e h = rw (disable_constraint, e) (rw h refl)

enabled :
    (key : String) (p : ℕ) (w : World)
    → w.mng.constr_map key ≡ some p
    → (w.heap.cell p).enabled ≡ false
    → enable_constraint key w ≡ (true, switch p true w)
unfolding enable_constraint
enabled key p w e h = rw (enable_constraint, e) (rw h refl)

switched_off : (p : ℕ) (w : World) → ((switch p false w).heap.cell p).enabled ≡ false
unfolding switch write_enabled
switched_off p w = rw ((==_iff p p).1 refl) refl

-- For a key of the manager whose constraint is enabled, `disableConstraint` and then
-- `enableConstraint` both answer true and leave every constraint, the names and the list as they
-- were, with the change noted.
pub enable_constraint-disable_constraint :
    (key : String) (p : ℕ) (w : World)
    → w.mng.constr_map key ≡ some p
    → (w.heap.cell p).enabled ≡ true
    → (v : World) × (enable_constraint key (disable_constraint key w).1 ≡ (true, v))
      × ((disable_constraint key w).0 ≡ true)
      × IsBack w v
unfolding switch
enable_constraint-disable_constraint key p w e h =
    let d = disabled key p w e h in
    (
      switch p true (switch p false w),
      ap (λ r. enable_constraint key r.1) d ∙ enabled key p (switch p false w) e (switched_off p w),
      ap (λ r. r.0) d,
      ((λ q. write-back p false true w.heap q h), refl, refl, refl, refl),
    )
