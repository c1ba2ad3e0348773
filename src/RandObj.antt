-- ===== src/RandObj.antt =====
-- `rand_obj` of crave/src/lib/ConstrainedRandom.cpp: random objects in a tree, each with a generator. The
-- generator of an object is given the constraints of all objects below it when it is rebuilt.
pub mod Request
pub mod Gather
pub mod Tree
use Prim.Native.String.{String}
use crave.Prelude.{
  ℕ, zero, suc, List, [], ◌∷◌, ◌++◌, Bool, true, false, Option, none, some, ◌==◌, if◌then◌else◌,
}
use crave.Prelude.Result.{Result, ok, err, undefined, ◌>>=◌}
use crave.Prelude.Random.{Random}
use crave.Constraint.Manager.{Heap}
use crave.Solver.MetaSmt.{Backend}
use crave.Generator.Container.{VariableContainer}
use crave.Generator.{
  Engines, Gen, Run, enable, disable, is_enabled, is_changed, add_vec_id, merge, rebuild,
  reset as reset_generator, next as next_generator, next_cov as next_cov_generator,
}

-- A `rand_base`: the id of a `rand_vec`, and `next()` of any other.
pub record BaseChild (M Rng : Type 0) : Type 0 where
  pub vec_id : Option ℕ
  pub next : M → Rng → Result (Bool × M × Rng)

module _ (B : Backend) (M : Type 0) (R : Random (B.Expr)) (E : Engines M R.Rng) where
  -- the fields of `rand_obj`
  pub record RandObj : Type 0 where
    pub constraint : Gen B M R E
    pub base_children : List (BaseChild M R.Rng)
    pub obj_children : List ℕ
    pub parent : Option ℕ
    pub needs_rebuild : Bool

  -- All objects, in the order of their construction: a `rand_obj*` is the number of one.
  pub record Objects : Type 0 where
    pub count : ℕ
    pub object : ℕ → RandObj

  abbrev pub update : ℕ → RandObj → Objects → Objects
  update p o objs = record objs { object = λ q. if p == q then o else objs.object q }

  -- `rebuild_ = true`
  unfoldable pub mark : ℕ → Objects → Objects
  mark p objs = update p (record (objs.object p) { needs_rebuild = true }) objs

  -- `request_rebuild()`, with the objects left to go through as fuel
  unfoldable pub request_from : ℕ → ℕ → Objects → Objects
  request_from zero p objs = objs
  request_from (suc fuel) p objs =
      let rest = mark p objs in
      elim ((objs.object p).parent) [ none ↦ rest | some q ↦ request_from fuel q rest ]

  -- A parent is older than its children, so an object has at most as many above it as its number.
  unfoldable pub request_rebuild : ℕ → Objects → Objects
  request_rebuild p objs = request_from (suc p) p objs

  -- `add_obj_child(ro)`
  unfoldable pub add_obj_child : ℕ → ℕ → Objects → Objects
  add_obj_child p ro objs =
      let o = objs.object p in
      request_rebuild p (update p (record o { obj_children = o.obj_children ++ ro ∷ [] }) objs)

  -- `rand_obj(parent)`, with a new generator
  unfoldable pub new_rand_obj : Option ℕ → Gen B M R E → Objects → ℕ × Objects
  new_rand_obj parent g objs =
      let p = objs.count in
      let o : RandObj = record {
        constraint = g;
        base_children = [];
        obj_children = [];
        parent = parent;
        needs_rebuild = false;
      } in
      let made : Objects = record (update p o objs) { count = suc p } in
      (p, elim parent [ none ↦ made | some q ↦ add_obj_child q p made ])

  abbrev pub is_vec : BaseChild M R.Rng → Bool
  is_vec rb = elim (rb.vec_id) [ none ↦ false | some id ↦ true ]

  -- `add_base_child(rb)`
  unfoldable pub add_base_child : ℕ → BaseChild M R.Rng → Objects → Objects
  add_base_child p rb objs =
      let o = objs.object p in
      let added = update p (record o { base_children = o.base_children ++ rb ∷ [] }) objs in
      if is_vec rb then request_rebuild p added else added

  -- the `if` of the two switches
  abbrev pub request_if : Bool → ℕ → Objects → Objects
  request_if b p objs = if b then request_rebuild p objs else objs

  abbrev pub with_constraint : ℕ → Gen B M R E → Objects → Objects
  with_constraint p g objs = update p (record (objs.object p) { constraint = g }) objs

  -- `enable_constraint(name)`
  unfoldable pub enable_in : ℕ → String → Heap → Objects → Bool × Heap × Objects
  enable_in p name h objs =
      let (b, h', g) = enable B M R E name h (objs.object p).constraint in
      (b, h', request_if (is_changed B M R E g) p (with_constraint p g objs))

  -- `disable_constraint(name)`
  unfoldable pub disable_in : ℕ → String → Heap → Objects → Bool × Heap × Objects
  disable_in p name h objs =
      let (b, h', g) = disable B M R E name h (objs.object p).constraint in
      (b, h', request_if (is_changed B M R E g) p (with_constraint p g objs))

  -- the loop of `gather_constraints` over the base children
  unfoldable pub gather_vecs : List (BaseChild M R.Rng) → Gen B M R E → Gen B M R E
  gather_vecs [] g = g
  gather_vecs (rb ∷ rbs) g =
      gather_vecs rbs (elim (rb.vec_id) [ none ↦ g | some id ↦ add_vec_id B M R E id g ])

  -- its loop over the object children, by the call on one of them
  unfoldable pub gather_children :
      (ℕ → Gen B M R E → Option (Gen B M R E)) → List ℕ → Gen B M R E → Option (Gen B M R E)
  gather_children gather [] g = some g
  gather_children gather (c ∷ cs) g = elim (gather c g) [
    | none ↦ none
    | some g1 ↦ gather_children gather cs g1
  ]

  -- `gather_constraints(gen)`; `none` would be running out of fuel.
  unfoldable pub gather_constraints : ℕ → Heap → Objects → ℕ → Gen B M R E → Option (Gen B M R E)
  gather_constraints zero h objs p g = none
  gather_constraints (suc fuel) h objs p g =
      elim (gather_children (gather_constraints fuel h objs) (objs.object p).obj_children g) [
        | none ↦ none
        | some g1 ↦
            let g2 = gather_vecs (objs.object p).base_children g1 in
            some (merge B M R E h (objs.object p).constraint.constr_mng g2)
      ]

  -- the loop of `gen_base_children` over the base children
  unfoldable pub gen_base : List (BaseChild M R.Rng) → M → R.Rng → Result (Bool × M × R.Rng)
  gen_base [] m r = ok (true, m, r)
  gen_base (rb ∷ rbs) m r =
      if is_vec rb
      then gen_base rbs m r
      else (rb.next m r >>= λ (b, m1, r1). elim b [
        | false ↦ ok (false, m1, r1)
        | true ↦ gen_base rbs m1 r1
      ])

  -- and over the object children, by the call on one of them
  unfoldable pub gen_objects :
      (ℕ → M → R.Rng → Result (Bool × M × R.Rng)) → List ℕ → M → R.Rng → Result (Bool × M × R.Rng)
  gen_objects gen [] m r = ok (true, m, r)
  gen_objects gen (c ∷ cs) m r = gen c m r >>= λ (b, m1, r1). elim b [
    | false ↦ ok (false, m1, r1)
    | true ↦ gen_objects gen cs m1 r1
  ]

  -- `gen_base_children()`; running out of fuel is an error of the model.
  unfoldable pub gen_base_children : ℕ → Objects → ℕ → M → R.Rng → Result (Bool × M × R.Rng)
  gen_base_children zero objs p m r = err undefined
  gen_base_children (suc fuel) objs p m r =
      gen_base (objs.object p).base_children m r >>= λ (b, m1, r1). elim b [
        | false ↦ ok (false, m1, r1)
        | true ↦ gen_objects (gen_base_children fuel objs) (objs.object p).obj_children m1 r1
      ]

  module _ (vcon : VariableContainer M) where
    -- the body of `if (rebuild_)` in `next` and `next_cov`, after the reset of the generator
    unfoldable pub gather_and_rebuild : Heap → ℕ → Objects → Gen B M R E → Result Objects
    gather_and_rebuild h p objs g =
        elim (gather_constraints objs.count h (with_constraint p g objs) p g) [
          | none ↦ err undefined
          | some g1 ↦ do
            g2 ← rebuild B M R E vcon false h g1
            ok (update p (record (objs.object p) { constraint = g2; needs_rebuild = false }) objs)
        ]

    -- the whole body
    unfoldable pub rebuild_object : Heap → ℕ → Objects → Result Objects
    rebuild_object h p objs = do
      g ← reset_generator B M R E vcon h (objs.object p).constraint
      gather_and_rebuild h p objs g

    -- the `if (rebuild_)`
    unfoldable pub refresh_object : Heap → ℕ → Objects → Result Objects
    refresh_object h p objs =
        if (objs.object p).needs_rebuild then rebuild_object h p objs else ok objs

    -- the end of `next` and `next_cov`, by the call on the generator
    unfoldable pub generate :
        (Run B M R E → Result (Bool × Run B M R E))
        → Heap
        → ℕ
        → Objects
        → M
        → R.Rng
        → Result (Bool × Objects × M × R.Rng)
    generate step h p objs m r = do
      (b, m1, r1) ← gen_base_children objs.count objs p m r
      elim b [
        | false ↦ ok (false, objs, m1, r1)
        | true ↦ do
          objs1 ← refresh_object h p objs
          (c, (g, m2, r2)) ← step ((objs1.object p).constraint, m1, r1)
          ok (c, with_constraint p g objs1, m2, r2)
      ]

    -- `next()`
    unfoldable pub next : Heap → ℕ → Objects → M → R.Rng → Result (Bool × Objects × M × R.Rng)
    next h p objs m r = generate (λ run. next_generator B M R E vcon h run) h p objs m r

    -- `next_cov()`
    unfoldable pub next_cov : Heap → ℕ → Objects → M → R.Rng → Result (Bool × Objects × M × R.Rng)
    next_cov h p objs m r = generate (λ run. next_cov_generator B M R E vcon h run) h p objs m r
