-- ===== src/Constraint/Partitioner/Groups.antt =====
-- What crave/src/lib/ConstraintPartitioner.cpp has to make of a list of constraints: groups that
-- hold each constraint once, share no variable, and are held together by shared variables.
use mathlib.Core.List.{Memᴰ, Perm, perm_middle}
use mathlib.Core.List.Perm
use crave.Prelude.{
  ℕ, ◌≡◌, refl, List, [], ◌∷◌, ◌++◌, Bool, true, false, ◌||◌, ltb, arith, Bool-cases, All, inl, inr,
}
use crave.Prelude.IntSet.{Disjoint, contains, contains-insert_all, intersection-nonempty_shared}
use crave.Constraint.{UserConstraint}
use crave.Constraint.Partition.{ConstraintPartition, add, insert_by_id}
use crave.Constraint.Partitioner.{shares_vars, absorb, sweep, seed}

-- Two constraints read a common variable.
abbrev pub Meets : UserConstraint → UserConstraint → Type 0
Meets b c = (v : ℕ) × (contains v b.support_vars ≡ true) × (contains v c.support_vars ≡ true)

-- A chain of constraints of `input`, each of which reads a variable of the one before it.
pub data Linked (input : List UserConstraint) (a : UserConstraint) : UserConstraint → Type 0 where
  start : Linked input a a
  next : {b c : UserConstraint} → Linked input a b → Memᴰ c input → Meets b c → Linked input a c

-- Some constraint of the list reads the variable.
unfoldable pub read_by : ℕ → List UserConstraint → Bool
read_by v [] = false
read_by v (c ∷ cs) = contains v c.support_vars || read_by v cs

-- A group: its support is what its constraints read, and chains lead from one of its constraints
-- to all of them.
pub record IsGroup (input : List UserConstraint) (cp : ConstraintPartition) : Type 0 where
  pub support : (v : ℕ) → contains v cp.support_vars ≡ read_by v cp.constraints
  pub centre : UserConstraint
  pub centre_in : Memᴰ centre input
  pub linked : All (Linked input centre) cp.constraints

-- The constraints of the groups, one group after the other.
unfoldable pub members : List ConstraintPartition → List UserConstraint
members [] = []
members (p ∷ ps) = p.constraints ++ members ps

read_by-insert_by_id :
    (v : ℕ) (c : UserConstraint) (cs : List UserConstraint)
    → read_by v (insert_by_id c cs) ≡ (contains v c.support_vars || read_by v cs)
unfolding read_by insert_by_id
read_by-insert_by_id v c [] = refl
read_by-insert_by_id v c (d ∷ ds) = ground (arith, read_by-insert_by_id v c ds)

All-insert_by_id :
    (P : UserConstraint → Type 0) (c : UserConstraint) (cs : List UserConstraint)
    → P c
    → All P cs
    → All P (insert_by_id c cs)
unfolding insert_by_id
All-insert_by_id P c [] p h = (p, tt)
All-insert_by_id P c (d ∷ ds) p h = elim (Bool-cases (ltb c.id d.id)) [
  | inl more ↦ rw more (h.0, All-insert_by_id P c ds p h.1)
  | inr less ↦ rw less (p, h)
]

insert_by_id-perm :
    (c : UserConstraint) (cs : List UserConstraint) → Perm (insert_by_id c cs) (c ∷ cs)
unfolding insert_by_id
insert_by_id-perm c [] = Perm.refl (c ∷ [])
insert_by_id-perm c (d ∷ ds) = elim (Bool-cases (ltb c.id d.id)) [
  | inl more ↦ rw more (Perm.trans (Perm.cons d (insert_by_id-perm c ds)) (Perm.swap c d ds))
  | inr less ↦ rw less (Perm.refl (c ∷ d ∷ ds))
]

-- A sweep moves constraints, and neither loses nor doubles one.
pub sweep-perm :
    (cp : ConstraintPartition) (lc : List UserConstraint)
    → Perm ((sweep cp lc).grown.constraints ++ (sweep cp lc).rest) (cp.constraints ++ lc)
unfolding sweep absorb add
sweep-perm cp [] = Perm.refl (cp.constraints ++ [])
sweep-perm cp (c ∷ lc) = elim (Bool-cases (shares_vars cp.support_vars c)) [
  | inl hit ↦ rw hit (
      Perm.trans (sweep-perm (absorb cp c) lc) (
        Perm.trans (Perm.append (insert_by_id-perm c cp.constraints) (Perm.refl lc))
          (Perm.symm (perm_middle cp.constraints lc))))
  | inr miss ↦ rw miss (
      Perm.trans (perm_middle (sweep cp lc).grown.constraints (sweep cp lc).rest)
        (Perm.trans (Perm.cons c (sweep-perm cp lc)) (Perm.symm (perm_middle cp.constraints lc))))
]

-- What a set has no variable in common with stays so under `absorb`.
pub absorb-Disjoint :
    (vars : List ℕ) (cp : ConstraintPartition) (c : UserConstraint)
    → Disjoint vars cp.support_vars
    → Disjoint vars c.support_vars
    → Disjoint vars (absorb cp c).support_vars
unfolding absorb add
absorb-Disjoint vars cp c h k v m =
    ground (arith, contains-insert_all v c.support_vars cp.support_vars, h v m, k v m)

module _ (input : List UserConstraint) (a : UserConstraint) where
  -- The invariant of the loops: as `IsGroup`, and each variable of the support has a linked reader.
  pub record Grows (cp : ConstraintPartition) : Type 0 where
    pub covered : (v : ℕ) → contains v cp.support_vars ≡ read_by v cp.constraints
    pub chained : All (Linked input a) cp.constraints
    pub reader :
        (v : ℕ)
        → contains v cp.support_vars ≡ true
        → (d : UserConstraint) × Linked input a d × (contains v d.support_vars ≡ true)

  pub Grows-seed : Grows (seed a)
  unfolding seed add read_by insert_by_id
  Grows-seed = record {
    covered = λ v. ground arith;
    chained = (start, tt);
    reader = λ v m. (a, start, m);
  }

  pub Grows-absorb :
      (cp : ConstraintPartition) (c : UserConstraint)
      → Grows cp
      → Memᴰ c input
      → shares_vars cp.support_vars c ≡ true
      → Grows (absorb cp c)
  unfolding absorb add shares_vars
  Grows-absorb cp c g m hit =
      let (v, p, q) = intersection-nonempty_shared cp.support_vars c.support_vars (ground arith) in
      let (d, l, r) = g.reader v p in
      let link : Linked input a c = next l m (v, r, q) in
      record {
        covered = λ w. ground (
          arith,
          contains-insert_all w c.support_vars cp.support_vars,
          read_by-insert_by_id w c cp.constraints,
          g.covered w,
        );
        chained = All-insert_by_id (Linked input a) c cp.constraints link g.chained;
        reader = λ w h. elim (Bool-cases (contains w c.support_vars)) [
          | inl here ↦ (c, link, here)
          | inr away ↦
              g.reader w (ground (arith, contains-insert_all w c.support_vars cp.support_vars))
        ];
      }
