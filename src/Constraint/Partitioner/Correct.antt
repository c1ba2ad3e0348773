-- ===== src/Constraint/Partitioner/Correct.antt =====
-- `partition` of crave/src/lib/ConstraintPartitioner.cpp, against the groups of
-- Constraint/Partitioner/Groups.
use mathlib.Core.Path.{subst}
use mathlib.Core.List.{Memᴰ, Perm, append_assoc, append-nil}
use mathlib.Core.List.Perm
use crave.Prelude.{
  ℕ, zero, suc, ◌≤◌, ◌≡◌, refl, sym, List, [], ◌∷◌, ◌++◌, some, length, arith, Bool-cases, All,
  All-map, All-append, Pairs, Pairs-concat, inl, inr,
}
use crave.Prelude.IntSet.{Disjoint}
use crave.Constraint.{UserConstraint}
use crave.Constraint.Partition.{ConstraintPartition, add, insert_by_id}
use crave.Constraint.Partitioner.{sweep, sweeps, seed, maximize_partition, partition_loop}
use crave.Constraint.Partitioner.Rules.{sweeps_rule, sweeps_closed, maximize_partition_total}
use crave.Constraint.Partitioner.Groups.{
  IsGroup, Grows, Grows-seed, Grows-absorb, absorb-Disjoint, members, sweep-perm,
}

sweeps-perm :
    (fuel : ℕ) (cp : ConstraintPartition) (lc : List UserConstraint) (cp' : ConstraintPartition)
    (rest : List UserConstraint)
    → sweeps fuel cp lc ≡ some (cp', rest)
    → Perm (cp'.constraints ++ rest) (cp.constraints ++ lc)
unfolding sweeps
sweeps-perm zero cp lc cp' rest e = cc
sweeps-perm (suc fuel) cp lc cp' rest e = elim (Bool-cases (sweep cp lc).changed) [
  | inl more ↦
      Perm.trans (sweeps-perm fuel (sweep cp lc).grown (sweep cp lc).rest cp' rest (rw more at e))
        (sweep-perm cp lc)
  | inr done ↦
      let ends : some ((sweep cp lc).grown, (sweep cp lc).rest) ≡ some (cp', rest) = rw done at e in
      let q : ◌≡◌ {A = ConstraintPartition × List UserConstraint}
          ((sweep cp lc).grown, (sweep cp lc).rest) (cp', rest) =
        cc ends in
      subst (λ t. Perm (t.0.constraints ++ t.1) (cp.constraints ++ lc)) q (sweep-perm cp lc)
]

pub record IsMaximal (input : List UserConstraint) (c : UserConstraint) (lc : List UserConstraint)
    (cp : ConstraintPartition) (rest : List UserConstraint) : Type 0 where
  pub group : IsGroup input cp
  pub rest_in : All (λ d. Memᴰ d input) rest
  pub apart : All (λ d. Disjoint cp.support_vars d.support_vars) rest
  pub kept : Perm (cp.constraints ++ rest) (c ∷ lc)

module _ (input : List UserConstraint) where
  pub maximize_partition-IsMaximal :
      (c : UserConstraint) (lc : List UserConstraint) (cp : ConstraintPartition)
      (rest : List UserConstraint)
      → All (λ d. Memᴰ d input) (c ∷ lc)
      → maximize_partition c lc ≡ some (cp, rest)
      → IsMaximal input c lc cp rest
  unfolding maximize_partition seed add insert_by_id
  maximize_partition-IsMaximal c lc cp rest h e =
      let fuel = suc (length lc) in
      let (g, r) =
        sweeps_rule (Grows input c) (λ d. Memᴰ d input) (Grows-absorb input c) fuel (seed c) lc cp
          rest (Grows-seed input c) h.1 e in
      record {
        group = record { support = g.covered; centre = c; centre_in = h.0; linked = g.chained };
        rest_in = r;
        apart = sweeps_closed fuel (seed c) lc cp rest e;
        kept = sweeps-perm fuel (seed c) lc cp rest e;
      }

members-concat :
    (ps : List ConstraintPartition) (p : ConstraintPartition)
    → members (ps ++ p ∷ []) ≡ members ps ++ p.constraints
unfolding members
members-concat [] p = append-nil p.constraints
members-concat (q ∷ ps) p =
    rw (members-concat ps p) (sym (append_assoc q.constraints (members ps) p.constraints))

abbrev Apart : ConstraintPartition → UserConstraint → Type 0
Apart p c = Disjoint p.support_vars c.support_vars

abbrev pub ApartGroups : ConstraintPartition → ConstraintPartition → Type 0
ApartGroups p q = Disjoint p.support_vars q.support_vars

-- A group made before has no variable in common with the next one, nor with what that leaves.
module _ (c : UserConstraint) (lc : List UserConstraint) (cp : ConstraintPartition)
    (rest : List UserConstraint) (e : maximize_partition c lc ≡ some (cp, rest)) where
  stays-Apart :
      (p : ConstraintPartition) → All (Apart p) (c ∷ lc) → ApartGroups p cp × All (Apart p) rest
  unfolding maximize_partition seed add
  stays-Apart p h =
      sweeps_rule (λ q. Disjoint p.support_vars q.support_vars) (Apart p)
        (λ q d k j _. absorb-Disjoint p.support_vars q d k j) (suc (length lc)) (seed c) lc cp rest
        h.0 h.1 e

module _ (input : List UserConstraint) where
  -- The invariant of the loop, over the groups made and the constraints left.
  record Splits (lc : List UserConstraint) (ps : List ConstraintPartition) : Type 0 where
    left_in : All (λ d. Memᴰ d input) lc
    groups : All (IsGroup input) ps
    pairwise : Pairs ApartGroups ps
    away : All (λ p. All (Apart p) lc) ps

  Splits-step :
      (c : UserConstraint) (lc : List UserConstraint) (ps : List ConstraintPartition)
      (cp : ConstraintPartition) (rest : List UserConstraint)
      → Splits (c ∷ lc) ps
      → maximize_partition c lc ≡ some (cp, rest)
      → Splits rest (ps ++ cp ∷ [])
  Splits-step c lc ps cp rest s e =
      let m = maximize_partition-IsMaximal input c lc cp rest s.left_in e in
      let stays =
        All-map (λ p. All (Apart p) (c ∷ lc)) (λ p. ApartGroups p cp × All (Apart p) rest)
          (stays-Apart c lc cp rest e) ps s.away in
      record {
        left_in = m.rest_in;
        groups = All-append (IsGroup input) ps (cp ∷ []) s.groups (m.group, tt);
        pairwise =
            Pairs-concat ApartGroups ps cp s.pairwise
              (All-map _ (λ p. ApartGroups p cp) (λ p h. h.0) ps stays);
        away =
            All-append (λ p. All (Apart p) rest) ps (cp ∷ [])
              (All-map _ (λ p. All (Apart p) rest) (λ p h. h.1) ps stays) (m.apart, tt);
      }

  pub record IsSplit (all : List UserConstraint) (ps : List ConstraintPartition) : Type 0 where
    pub once : Perm (members ps) all
    pub groups : All (IsGroup input) ps
    pub pairwise : Pairs ApartGroups ps

  partition_loop-IsSplit :
      (fuel : ℕ) (lc : List UserConstraint) (ps : List ConstraintPartition)
      → length lc ≤ fuel
      → Splits lc ps
      → (ps' : List ConstraintPartition) × (partition_loop fuel lc ps ≡ some ps')
        × IsSplit (members ps ++ lc) ps'
  unfolding partition_loop
  partition_loop-IsSplit fuel [] ps h s = (
    ps,
    refl,
    record {
      once = rw append-nil (Perm.refl (members ps));
      groups = s.groups;
      pairwise = s.pairwise;
    },
  )
  partition_loop-IsSplit zero (c ∷ lc) ps h s = elim h [ ]
  partition_loop-IsSplit (suc fuel) (c ∷ lc) ps h s =
      let (cp, rest, e, l) = maximize_partition_total c lc in
      let (ps', e', sp) =
        partition_loop-IsSplit fuel rest (ps ++ cp ∷ []) (omega arith)
          (Splits-step c lc ps cp rest s e) in
      let m = maximize_partition-IsMaximal input c lc cp rest s.left_in e in
      (
        ps',
        rw (e, partition_loop) e',
        record {
          once =
              Perm.trans (rw (members-concat ps cp, append_assoc) at sp.once)
                (Perm.append (Perm.refl (members ps)) m.kept);
          groups = sp.groups;
          pairwise = sp.pairwise;
        },
      )

in_itself : (xs : List UserConstraint) → All (λ d. Memᴰ d xs) xs
in_itself [] = tt
in_itself (x ∷ xs) =
    (Memᴰ.head refl, All-map _ (λ d. Memᴰ d (x ∷ xs)) (λ d m. Memᴰ.tail m) xs (in_itself xs))

-- Partitioning a list of constraints ends, with as many rounds as there are constraints. The groups
-- hold each constraint exactly once; no two groups have a variable in common; the support of a
-- group is what its constraints read; and each group is held together by shared variables, with a
-- chain of constraints from one of them to every other.
pub partition_loop_correct :
    (lc : List UserConstraint)
    → (ps : List ConstraintPartition) × (partition_loop (length lc) lc [] ≡ some ps)
      × IsSplit lc lc ps
unfolding members
partition_loop_correct lc =
    partition_loop-IsSplit lc (length lc) lc [] (omega arith)
      (record { left_in = in_itself lc; groups = tt; pairwise = tt; away = tt })
