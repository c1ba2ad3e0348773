-- ===== src/RandObj/Gather.antt =====
-- What the generator of a `rand_obj` of crave/src/lib/ConstrainedRandom.cpp solves after a rebuild: the
-- constraints of all objects below it.
use mathlib.Core.Path.{subst}
use mathlib.Core.List.{append-nil, append_assoc}
use crave.Prelude.{
  ℕ, zero, suc, ◌+◌, ◌≤◌, ◌<◌, ◌≡◌, refl, sym, ap, ◌∙◌, List, [], ◌∷◌, ◌++◌, Bool, true, false,
  Option, some, arith, All, All-map, Bool-cases, ==_iff, Option-cases, inl, inr, ◌==◌,
}
use crave.Prelude.Result.{Result, ok, ◌>>=◌}
use crave.Prelude.Random.{Random}
use crave.Constraint.{UserConstraint}
use crave.Constraint.Partitioner.Correct.{IsSplit}
use crave.Constraint.Partitioner.State.{
  ConstraintPartitioner, enabled_of, merge_constraints-enabled, partition-IsSplit, partition,
  reset as reset_partitioner,
}
use crave.Constraint.Manager.{Heap, World, deref, reset_changed}
use crave.Solver.MetaSmt.{Backend}
use crave.Generator.Container.{VariableContainer}
use crave.Generator.{Engines, Gen, add_vec_id, merge, rebuild, reset_engines}
use crave.Generator.Rebuild.{cleared, reset-cleared, IsRemade, reset_engines-IsRemade}
use crave.RandObj.{
  BaseChild, Objects, update, with_constraint, gather_vecs, gather_children, gather_constraints,
  gather_and_rebuild, rebuild_object,
}

module _ (B : Backend) (M : Type 0) (R : Random (B.Expr)) (E : Engines M R.Rng) where
  -- The enabled constraints of one object, plain ones or vector ones.
  unfoldable pub own : Heap → Objects B M R E → Bool → ℕ → List UserConstraint
  own h objs v p = enabled_of v (deref h (objs.object p).constraint.constr_mng.constraints)

  -- One list for each element of another, in order.
  unfoldable pub all_of : (ℕ → List UserConstraint) → List ℕ → List UserConstraint
  all_of f [] = []
  all_of f (c ∷ cs) = f c ++ all_of f cs

  all_of-same :
      (f g : ℕ → List UserConstraint) (cs : List ℕ)
      → ((c : ℕ) → f c ≡ g c)
      → all_of f cs ≡ all_of g cs
  unfolding all_of
  all_of-same f g [] e = refl
  all_of-same f g (c ∷ cs) e = rw (e c, all_of-same f g cs e) refl

  -- Those of an object and of all below it, down to a depth: children first.
  unfoldable pub below : ℕ → Heap → Objects B M R E → Bool → ℕ → List UserConstraint
  below zero h objs v p = []
  below (suc depth) h objs v p =
      all_of (below depth h objs v) (objs.object p).obj_children ++ own h objs v p

  -- Children are younger, and have been made.
  abbrev pub IsGrown : Objects B M R E → Type 0
  IsGrown objs = (p : ℕ) → All (λ c. (p < c) × (c < objs.count)) (objs.object p).obj_children

  -- A generator without its partitioner and its vector ids, which gathering changes.
  abbrev pub others : Gen B M R E → Gen B M R E
  others g = record g {
    constr_pttn = record {
      constr_mngs = [];
      constraints = [];
      partitions = [];
      vec_constraints = [];
    };
    to_be_generated_vec_ids = [];
  }

  -- A gathering of some plain and some vector constraints.
  abbrev IsGathered : List UserConstraint → List UserConstraint → Gen B M R E → Gen B M R E → Type 0
  IsGathered plain vecs g g' =
      (g'.constr_pttn.constraints ≡ g.constr_pttn.constraints ++ plain)
      × (g'.constr_pttn.vec_constraints ≡ g.constr_pttn.vec_constraints ++ vecs)
      × (g'.constr_pttn.partitions ≡ g.constr_pttn.partitions)
      × (others g' ≡ others g)

  gather_vecs-pttn :
      (rbs : List (BaseChild M R.Rng)) (g : Gen B M R E)
      → (gather_vecs B M R E rbs g).constr_pttn ≡ g.constr_pttn
  unfolding gather_vecs add_vec_id
  gather_vecs-pttn [] g = refl
  gather_vecs-pttn (rb ∷ rbs) g = elim (Option-cases rb.vec_id) [
    | inl e ↦ rw (gather_vecs, e) (gather_vecs-pttn rbs g)
    | inr (id, e) ↦ rw (gather_vecs, e) (gather_vecs-pttn rbs (add_vec_id B M R E id g))
  ]

  gather_vecs-others :
      (rbs : List (BaseChild M R.Rng)) (g : Gen B M R E)
      → others (gather_vecs B M R E rbs g) ≡ others g
  unfolding gather_vecs add_vec_id
  gather_vecs-others [] g = refl
  gather_vecs-others (rb ∷ rbs) g = elim (Option-cases rb.vec_id) [
    | inl e ↦ rw (gather_vecs, e) (gather_vecs-others rbs g)
    | inr (id, e) ↦ rw (gather_vecs, e) (gather_vecs-others rbs (add_vec_id B M R E id g))
  ]

  then-IsGathered :
      (xs ys us vs : List UserConstraint) (g g1 g2 : Gen B M R E)
      → IsGathered xs us g g1
      → IsGathered ys vs g1 g2
      → IsGathered (xs ++ ys) (us ++ vs) g g2
  then-IsGathered xs ys us vs g g1 g2 (a, b, c, x) (d, e, f, y) = (
    d ∙ rw a (append_assoc g.constr_pttn.constraints xs ys),
    e ∙ rw b (append_assoc g.constr_pttn.vec_constraints us vs),
    f ∙ c,
    y ∙ x,
  )

  gather_children-next :
      (gather : ℕ → Gen B M R E → Option (Gen B M R E)) (c : ℕ) (cs : List ℕ) (g g1 : Gen B M R E)
      → gather c g ≡ some g1
      → gather_children B M R E gather (c ∷ cs) g ≡ gather_children B M R E gather cs g1
  unfolding gather_children
  gather_children-next gather c cs g g1 e = rw (gather_children, e) refl

  gather_constraints-merge :
      (fuel : ℕ) (h : Heap) (objs : Objects B M R E) (p : ℕ) (g g1 : Gen B M R E)
      → gather_children B M R E
          (gather_constraints B M R E fuel h objs)
          (objs.object p).obj_children
          g
        ≡ some g1
      → gather_constraints B M R E (suc fuel) h objs p g
        ≡ some (
            merge B M R E h
              (objs.object p).constraint.constr_mng
              (gather_vecs B M R E (objs.object p).base_children g1))
  unfolding gather_constraints
  gather_constraints-merge fuel h objs p g g1 e = rw (gather_constraints, e) refl

  gather_children-IsGathered :
      (gather : ℕ → Gen B M R E → Option (Gen B M R E)) (f u : ℕ → List UserConstraint)
      (cs : List ℕ) (g : Gen B M R E)
      → All
          (λ c.
            (g : Gen B M R E)
            → (g' : Gen B M R E) × (gather c g ≡ some g') × IsGathered (f c) (u c) g g')
          cs
      → (g' : Gen B M R E) × (gather_children B M R E gather cs g ≡ some g')
        × IsGathered (all_of f cs) (all_of u cs) g g'
  unfolding gather_children all_of
  gather_children-IsGathered gather f u [] g h =
      (g, refl, (sym (append-nil _), sym (append-nil _), refl, refl))
  gather_children-IsGathered gather f u (c ∷ cs) g h =
      let (g1, e, p) = h.0 g in
      let (g2, d, q) = gather_children-IsGathered gather f u cs g1 h.1 in
      (
        g2,
        gather_children-next gather c cs g g1 e ∙ d,
        then-IsGathered (f c) (all_of f cs) (u c) (all_of u cs) g g1 g2 p q,
      )

  merged :
      (h : Heap) (objs : Objects B M R E) (p : ℕ) (g : Gen B M R E)
      → IsGathered (own h objs false p) (own h objs true p) g (
          merge B M R E h
            (objs.object p).constraint.constr_mng
            (gather_vecs B M R E (objs.object p).base_children g))
  unfolding merge own
  merged h objs p g =
      let w : World = record { heap = h; mng = (objs.object p).constraint.constr_mng } in
      let (a, b, c) =
        merge_constraints-enabled w
          (gather_vecs B M R E (objs.object p).base_children g).constr_pttn in
      let e = gather_vecs-pttn (objs.object p).base_children g in
      (
        a ∙ ap (λ st. st.constraints ++ own h objs false p) e,
        b ∙ ap (λ st. st.vec_constraints ++ own h objs true p) e,
        c ∙ ap (λ st. st.partitions) e,
        gather_vecs-others (objs.object p).base_children g,
      )

  gather_constraints-IsGathered :
      (fuel : ℕ) (h : Heap) (objs : Objects B M R E) (p : ℕ) (g : Gen B M R E)
      → IsGrown objs
      → p < objs.count
      → objs.count ≤ fuel + p
      → (g' : Gen B M R E) × (gather_constraints B M R E fuel h objs p g ≡ some g')
        × IsGathered (below fuel h objs false p) (below fuel h objs true p) g g'
  unfolding gather_constraints below
  gather_constraints-IsGathered zero h objs p g w l k = ground arith
  gather_constraints-IsGathered (suc fuel) h objs p g w l k =
      let (g1, e, q) =
        gather_children-IsGathered (gather_constraints B M R E fuel h objs)
          (below fuel h objs false) (below fuel h objs true) (objs.object p).obj_children g
          (All-map (λ c. (p < c) × (c < objs.count)) _
            (λ c b g. gather_constraints-IsGathered fuel h objs c g w b.1 (omega (arith, b.0)))
            (objs.object p).obj_children (w p)) in
      let g2 : Gen B M R E =
        merge B M R E h (objs.object p).constraint.constr_mng
          (gather_vecs B M R E (objs.object p).base_children g1) in
      (
        g2,
        gather_constraints-merge fuel h objs p g g1 e,
        then-IsGathered _ _ _ _ g g1 g2 q (merged h objs p g1),
      )

  -- The reset of an object's generator changes no constraint of the tree.
  module _ (vcon : VariableContainer M) (h : Heap) (p : ℕ) (objs : Objects B M R E) where
    abbrev pub fresh : Gen B M R E
    fresh = cleared B M R E vcon h (objs.object p).constraint

    abbrev reset_objs : Objects B M R E
    reset_objs = with_constraint B M R E p fresh objs

    here :
        (reset_objs.object p).constraint.constr_mng.constraints
        ≡ (objs.object p).constraint.constr_mng.constraints
    unfolding reset_changed
    here = rw ((==_iff p p).1 refl) refl

    away :
        (q : ℕ)
        → (p == q) ≡ false
        → (reset_objs.object q).constraint.constr_mng.constraints
          ≡ (objs.object q).constraint.constr_mng.constraints
    away q e = rw e refl

    reset-constraints :
        (q : ℕ)
        → (reset_objs.object q).constraint.constr_mng.constraints
          ≡ (objs.object q).constraint.constr_mng.constraints
    reset-constraints q = elim (Bool-cases (p == q)) [
      | inl e ↦
          subst
            (λ r.
              (reset_objs.object r).constraint.constr_mng.constraints
              ≡ (objs.object r).constraint.constr_mng.constraints)
            ((==_iff p q).0 e) here
      | inr e ↦ away q e
    ]

    reset-own : (v : Bool) (q : ℕ) → own h reset_objs v q ≡ own h objs v q
    unfolding own
    reset-own v q = ap (λ l. enabled_of v (deref h l)) (reset-constraints q)

    reset-children : (q : ℕ) → (reset_objs.object q).obj_children ≡ (objs.object q).obj_children
    reset-children q = ground arith

    reset-below :
        (depth : ℕ) (v : Bool) (q : ℕ) → below depth h reset_objs v q ≡ below depth h objs v q
    unfolding below
    reset-below zero v q = refl
    reset-below (suc depth) v q =
        rw (reset-children q, reset-own v q)
          (ap (λ l. l ++ own h objs v q)
            (all_of-same (below depth h reset_objs v) (below depth h objs v)
              (objs.object q).obj_children (reset-below depth v)))

    -- The object with the generator that the rebuild made.
    abbrev pub rebuilt : Gen B M R E → Objects B M R E
    rebuilt g =
        update B M R E p (record (objs.object p) { constraint = g; needs_rebuild = false }) objs

    -- The partitions of all constraints from an object on down.
    abbrev pub IsWhole : ConstraintPartitioner → Type 0
    IsWhole pt =
        (pt.vec_constraints ≡ below objs.count h objs true p)
        × IsSplit (below objs.count h objs false p) (below objs.count h objs false p) pt.partitions

    rebuild-of :
        (g : Gen B M R E) (pt : ConstraintPartitioner)
        → partition g.constr_pttn ≡ some pt
        → rebuild B M R E vcon false h g ≡ reset_engines B M R E vcon pt g
    unfolding rebuild
    rebuild-of g pt e = rw (rebuild, e) refl

    rebuild_object-gather :
        rebuild_object B M R E vcon h p objs ≡ gather_and_rebuild B M R E vcon h p objs fresh
    unfolding rebuild_object
    rebuild_object-gather = rw (reset-cleared B M R E vcon h (objs.object p).constraint) refl

    gathered :
        (g : Gen B M R E)
        → gather_constraints B M R E objs.count h reset_objs p fresh ≡ some g
        → gather_and_rebuild B M R E vcon h p objs fresh
          ≡ (rebuild B M R E vcon false h g >>= λ g2. ok (rebuilt g2))
    unfolding gather_and_rebuild
    gathered g e = rw (gather_and_rebuild, e) refl

    rebuild_object-of :
        (g : Gen B M R E)
        → gather_constraints B M R E objs.count h reset_objs p fresh ≡ some g
        → rebuild_object B M R E vcon h p objs
          ≡ (rebuild B M R E vcon false h g >>= λ g2. ok (rebuilt g2))
    rebuild_object-of g e = rebuild_object-gather ∙ gathered g e

    -- The rebuild of an object in a tree whose children are younger than their parents makes the
    -- solvers anew: the generators for variables, for vectors and for coverage are reset with
    -- partitions that split the enabled plain constraints of the object and of all objects below it,
    -- and with all their enabled vector constraints, those of children first, and replaced by the
    -- results in the object's generator. Its manager's change is no longer noted, nothing is covered,
    -- and the object needs no rebuild.
    pub rebuild_object-IsWhole :
        IsGrown objs
        → p < objs.count
        → (pt : ConstraintPartitioner) × (g : Gen B M R E) × IsWhole pt
          × (others g ≡ others fresh)
          × (call : Result (Gen B M R E)) × IsRemade B M R E vcon pt g call
          × (rebuild_object B M R E vcon h p objs ≡ (call >>= λ g2. ok (rebuilt g2)))
    unfolding reset_partitioner
    rebuild_object-IsWhole w l =
        let (g, e, (a, b, c, o)) =
          gather_constraints-IsGathered objs.count h reset_objs p fresh
            (λ q. rw (reset-children q) (w q)) l (omega arith) in
        let (pt, d, v, s) =
          partition-IsSplit g.constr_pttn (below objs.count h objs false p)
            (a ∙ reset-below objs.count false p) c in
        (
          pt,
          g,
          (v ∙ b ∙ reset-below objs.count true p, s),
          o,
          reset_engines B M R E vcon pt g,
          reset_engines-IsRemade B M R E vcon pt g,
          rebuild_object-of g e ∙ ap (λ r. r >>= λ g2. ok (rebuilt g2)) (rebuild-of g pt d),
        )
