-- ===== src/Constraint/Partitioner/Rules.antt =====
-- Rules for the loops of crave/src/lib/ConstraintPartitioner.cpp: what one hit keeps, a sweep keeps,
-- all sweeps keep and a maximal partition has; and the loops end.
use crave.Prelude.{
  ℕ, zero, suc, ◌≤◌, ◌<◌, ◌≡◌, refl, ap, inl, inr, List, [], ◌∷◌, true, false, some, length, arith,
  Bool-cases, All,
}
use mathlib.Core.Path.{subst}
use crave.Prelude.IntSet.{Disjoint, intersection-empty_sound}
use crave.Constraint.{UserConstraint}
use crave.Constraint.Partition.{ConstraintPartition}
use crave.Constraint.Partitioner.{shares_vars, absorb, sweep, sweeps, seed, maximize_partition}

module _ (P : ConstraintPartition → Type 0) (Q : UserConstraint → Type 0)
    (keep : (cp : ConstraintPartition) (c : UserConstraint)
      → P cp
      → Q c
      → shares_vars cp.support_vars c ≡ true
      → P (absorb cp c)) where
  pub sweep_rule :
      (cp : ConstraintPartition) (lc : List UserConstraint)
      → P cp
      → All Q lc
      → P (sweep cp lc).grown × All Q (sweep cp lc).rest
  unfolding sweep
  sweep_rule cp [] p q = (p, tt)
  sweep_rule cp (c ∷ lc) p q = elim (Bool-cases (shares_vars cp.support_vars c)) [
    | inl hit ↦ rw hit (sweep_rule (absorb cp c) lc (keep cp c p q.0 hit) q.1)
    | inr miss ↦ let (p', q') = sweep_rule cp lc p q.1 in rw miss (p', (q.0, q'))
  ]

  pub sweeps_rule :
      (fuel : ℕ) (cp : ConstraintPartition) (lc : List UserConstraint) (cp' : ConstraintPartition)
      (rest : List UserConstraint)
      → P cp
      → All Q lc
      → sweeps fuel cp lc ≡ some (cp', rest)
      → P cp' × All Q rest
  unfolding sweeps
  sweeps_rule zero cp lc cp' rest p q e = cc
  sweeps_rule (suc fuel) cp lc cp' rest p q e =
      let (p', q') = sweep_rule cp lc p q in
      ground (arith, sweeps_rule fuel (sweep cp lc).grown (sweep cp lc).rest cp' rest p' q')

true-ne-false : ¬ (true ≡ false)
true-ne-false e = cc

-- A sweep that changes nothing has met no constraint, and leaves all as it was.
pub sweep_unchanged :
    (cp : ConstraintPartition) (lc : List UserConstraint)
    → (sweep cp lc).changed ≡ false
    → ((sweep cp lc).grown ≡ cp)
      × ((sweep cp lc).rest ≡ lc)
      × All (λ c. Disjoint cp.support_vars c.support_vars) lc
unfolding sweep shares_vars
sweep_unchanged cp [] e = (refl, refl, tt)
sweep_unchanged cp (c ∷ lc) e = elim (Bool-cases (shares_vars cp.support_vars c)) [
  | inl hit ↦ absurd (true-ne-false (rw hit at e))
  | inr miss ↦
      let (g, r, d) = sweep_unchanged cp lc (rw miss at e) in
      rw miss (
        g,
        ap (λ (l : List UserConstraint). c ∷ l) r,
        (intersection-empty_sound cp.support_vars c.support_vars (ground arith), d),
      )
]

-- A sweep that changes something has taken a constraint.
pub sweep_progress :
    (cp : ConstraintPartition) (lc : List UserConstraint)
    → (length (sweep cp lc).rest ≤ length lc)
      × ((sweep cp lc).changed ≡ true → length (sweep cp lc).rest < length lc)
unfolding sweep
sweep_progress cp [] = (omega arith, λ e. cc)
sweep_progress cp (c ∷ lc) = ground (arith, sweep_progress cp lc, sweep_progress (absorb cp c) lc)

-- More fuel than constraints is enough, and what is left is no longer than what there was.
pub sweeps_total :
    (fuel : ℕ) (cp : ConstraintPartition) (lc : List UserConstraint)
    → length lc < fuel
    → (cp' : ConstraintPartition) × (rest : List UserConstraint) × (sweeps fuel cp lc
        ≡ some (cp', rest))
      × (length rest ≤ length lc)
unfolding sweeps
sweeps_total zero cp lc h = elim h [ ]
sweeps_total (suc fuel) cp lc h = elim (Bool-cases (sweep cp lc).changed) [
  | inl more ↦
      let less = (sweep_progress cp lc).1 more in
      let (cp', rest, e, l) =
        sweeps_total fuel (sweep cp lc).grown (sweep cp lc).rest (omega arith) in
      (cp', rest, rw more e, omega arith)
  | inr done ↦ ((sweep cp lc).grown, (sweep cp lc).rest, rw done refl, (sweep_progress cp lc).0)
]

-- What the last sweep leaves shares no variable with the partition.
pub sweeps_closed :
    (fuel : ℕ) (cp : ConstraintPartition) (lc : List UserConstraint) (cp' : ConstraintPartition)
    (rest : List UserConstraint)
    → sweeps fuel cp lc ≡ some (cp', rest)
    → All (λ c. Disjoint cp'.support_vars c.support_vars) rest
unfolding sweeps
sweeps_closed zero cp lc cp' rest e = cc
sweeps_closed (suc fuel) cp lc cp' rest e = elim (Bool-cases (sweep cp lc).changed) [
  | inl more ↦ sweeps_closed fuel (sweep cp lc).grown (sweep cp lc).rest cp' rest (rw more at e)
  | inr done ↦
      let (g, r, d) = sweep_unchanged cp lc done in
      let ends : some ((sweep cp lc).grown, (sweep cp lc).rest) ≡ some (cp', rest) = rw done at e in
      let q : ◌≡◌ {A = ConstraintPartition × List UserConstraint} (cp, lc) (cp', rest) =
        cc (g, r, ends) in
      subst (λ t. All (λ c. Disjoint t.0.support_vars c.support_vars) t.1) q d
]

-- `maximizePartition` always returns: its sweeps are enough.
pub maximize_partition_total :
    (c : UserConstraint) (lc : List UserConstraint)
    → (cp : ConstraintPartition) × (rest : List UserConstraint) × (maximize_partition c lc
        ≡ some (cp, rest))
      × (length rest ≤ length lc)
unfolding maximize_partition
maximize_partition_total c lc = sweeps_total (suc (length lc)) (seed c) lc (omega arith)
