-- ===== src/RandObj/Tree.antt =====
-- The tree of `rand_obj` in crave/src/lib/ConstrainedRandom.cpp stays one when an object is made.
use mathlib.Core.Path.{subst}
use crave.Prelude.{
  ℕ, zero, suc, ◌<◌, ◌≡◌, ◌≢◌, refl, sym, ap, ◌∙◌, [], ◌∷◌, ◌++◌, true, false, Option, none, some,
  ◌==◌, ==_iff, arith, All, All-append, All-map, Option-cases, Bool-cases, inl, inr,
}
use crave.Prelude.Random.{Random}
use crave.Solver.MetaSmt.{Backend}
use crave.Generator.{Engines, Gen}
use crave.RandObj.{
  RandObj, mark, update, request_from, request_rebuild, add_obj_child, new_rand_obj,
}
use crave.RandObj.Request.{
  Objs, parent_of, content, is_due, IsOrdered, request_from-keeps, request_from-itself,
}
use crave.RandObj.Gather.{IsGrown}

module _ (B : Backend) (M : Type 0) (R : Random (B.Expr)) (E : Engines M R.Rng) where
  -- Parents are older than their children, and every child has been made.
  abbrev pub IsTree : Objs B M R E → Type 0
  IsTree objs = IsOrdered B M R E objs × IsGrown B M R E objs

  request_from-count :
      (fuel p : ℕ) (objs : Objs B M R E) → (request_from B M R E fuel p objs).count ≡ objs.count
  unfolding request_from mark
  request_from-count zero p objs = refl
  request_from-count (suc fuel) p objs = elim (Option-cases (objs.object p).parent) [
    | inl e ↦ rw (request_from, e) refl
    | inr (q, e) ↦ rw (request_from, e) (request_from-count fuel q (mark B M R E p objs))
  ]

  -- A tree is one by the contents of the objects.
  same-IsTree :
      (a b : Objs B M R E)
      → b.count ≡ a.count
      → ((p : ℕ) → content B M R E b p ≡ content B M R E a p)
      → IsTree a
      → IsTree b
  unfolding parent_of
  same-IsTree a b n c (o, w) = (
    (λ p q e. o p q (sym (ap (λ x. x.parent) (c p)) ∙ e)),
    (λ p.
        rw n (
          subst (All (λ d. (p < d) × (d < a.count))) (sym (ap (λ x. x.obj_children) (c p))) (w p))),
  )

  abbrev at : Objs B M R E → ℕ → RandObj B M R E
  at objs p = objs.object p

  -- One object is put in place of another.
  update-here :
      (p : ℕ) (o : RandObj B M R E) (objs : Objs B M R E) → at (update B M R E p o objs) p ≡ o
  update-here p o objs = rw ((==_iff p p).1 refl) refl

  update-away :
      (p q : ℕ) (o : RandObj B M R E) (objs : Objs B M R E)
      → (p == q) ≡ false
      → at (update B M R E p o objs) q ≡ at objs q
  update-away p q o objs e = rw e refl

  update-IsTree :
      (p : ℕ) (o : RandObj B M R E) (objs : Objs B M R E)
      → IsTree objs
      → ((q : ℕ) → o.parent ≡ some q → q < p)
      → All (λ c. (p < c) × (c < objs.count)) o.obj_children
      → IsTree (update B M R E p o objs)
  unfolding parent_of
  update-IsTree p o objs (d, w) f g = (
    (λ r q e. elim (Bool-cases (p == r)) [
      | inl i ↦
          let k = (==_iff p r).0 i in
          subst (λ s. q < s) k
            (f q (
              sym (ap (λ x. x.parent) (update-here p o objs))
              ∙ subst (λ s. (at (update B M R E p o objs) s).parent ≡ some q) (sym k) e))
      | inr n ↦ d r q (sym (ap (λ x. x.parent) (update-away p r o objs n)) ∙ e)
    ]),
    (λ r. elim (Bool-cases (p == r)) [
      | inl i ↦
          subst
            (λ s.
              All (λ c. (s < c) × (c < objs.count)) (at (update B M R E p o objs) s).obj_children)
            ((==_iff p r).0 i)
            (subst (All (λ c. (p < c) × (c < objs.count)))
              (sym (ap (λ x. x.obj_children) (update-here p o objs))) g)
      | inr n ↦
          subst (All (λ c. (r < c) × (c < objs.count)))
            (sym (ap (λ x. x.obj_children) (update-away p r o objs n))) (w r)
    ]),
  )

  one_more : (objs : Objs B M R E) → IsTree objs → IsTree (record objs { count = suc objs.count })
  unfolding parent_of
  one_more objs (d, w) = (
    d,
    (λ p.
        All-map (λ c. (p < c) × (c < objs.count)) (λ c. (p < c) × (c < suc objs.count))
          (λ c h. (h.0, omega (arith, h.1))) (objs.object p).obj_children (w p)),
  )

  add_obj_child-IsTree :
      (p c : ℕ) (objs : Objs B M R E)
      → IsTree objs
      → p < c
      → c < objs.count
      → IsTree (add_obj_child B M R E p c objs)
  unfolding add_obj_child request_rebuild parent_of
  add_obj_child-IsTree p c objs (d, w) l k =
      let o : RandObj B M R E = record (objs.object p) {
        obj_children = (objs.object p).obj_children ++ c ∷ [];
      } in
      let t =
        update-IsTree p o objs (d, w) (λ q e. d p q e)
          (All-append (λ c. (p < c) × (c < objs.count)) (objs.object p).obj_children (c ∷ []) (w p)
            ((l, k), tt)) in
      let a : Objs B M R E = update B M R E p o objs in
      same-IsTree a (request_from B M R E (suc p) p a) (request_from-count (suc p) p a)
        (λ q. (request_from-keeps B M R E (suc p) p q a).1) t

  -- An object without children, as the constructor makes it.
  abbrev pub newborn : Option ℕ → Gen B M R E → RandObj B M R E
  newborn parent g = record {
    constraint = g;
    base_children = [];
    obj_children = [];
    parent = parent;
    needs_rebuild = false;
  }

  abbrev pub with_child : ℕ → RandObj B M R E → RandObj B M R E
  with_child c o = record o { obj_children = o.obj_children ++ c ∷ []; needs_rebuild = false }

  abbrev bare : RandObj B M R E → RandObj B M R E
  bare o = record o { needs_rebuild = false }

  -- The objects with one more, which is the last child of its parent if it has one; then the parent
  -- needs a rebuild. The rebuild flags aside, nothing else changes.
  abbrev pub IsAdded : Option ℕ → Gen B M R E → Objs B M R E → ℕ × Objs B M R E → Type 0
  IsAdded parent g objs (n, objs') =
      (n ≡ objs.count)
      × (objs'.count ≡ suc objs.count)
      × (content B M R E objs' n ≡ newborn parent g)
      × ((q : ℕ)
          → parent ≡ some q
          → (content B M R E objs' q ≡ with_child n (objs.object q))
            × (is_due B M R E objs' q ≡ true))
      × ((q : ℕ)
          → (n == q) ≡ false
          → parent ≢ some q
          → content B M R E objs' q ≡ content B M R E objs q)

  -- The objects after the new one is put at the end of them.
  abbrev born : Option ℕ → Gen B M R E → Objs B M R E → Objs B M R E
  born parent g objs = record (update B M R E objs.count (newborn parent g) objs) {
    count = suc objs.count;
  }

  born-here :
      (parent : Option ℕ) (g : Gen B M R E) (objs : Objs B M R E)
      → at (born parent g objs) objs.count ≡ newborn parent g
  born-here parent g objs = update-here objs.count (newborn parent g) objs

  born-away :
      (parent : Option ℕ) (g : Gen B M R E) (objs : Objs B M R E) (q : ℕ)
      → (objs.count == q) ≡ false
      → at (born parent g objs) q ≡ at objs q
  born-away parent g objs q e = update-away objs.count q (newborn parent g) objs e

  add_obj_child-content :
      (p c x : ℕ) (objs : Objs B M R E)
      → content B M R E (add_obj_child B M R E p c objs) x
        ≡ bare (
            at
              (update B M R E p
                (record (objs.object p) { obj_children = (objs.object p).obj_children ++ c ∷ [] })
                objs)
              x)
  unfolding add_obj_child request_rebuild
  add_obj_child-content p c x objs = (request_from-keeps B M R E (suc p) p x _).1

  add_obj_child-here :
      (p c : ℕ) (objs : Objs B M R E)
      → content B M R E (add_obj_child B M R E p c objs) p ≡ with_child c (objs.object p)
  add_obj_child-here p c objs = add_obj_child-content p c p objs ∙ ap bare (update-here p _ objs)

  add_obj_child-away :
      (p c x : ℕ) (objs : Objs B M R E)
      → (p == x) ≡ false
      → content B M R E (add_obj_child B M R E p c objs) x ≡ content B M R E objs x
  add_obj_child-away p c x objs e =
      add_obj_child-content p c x objs ∙ ap bare (update-away p x _ objs e)

  add_obj_child-count :
      (p c : ℕ) (objs : Objs B M R E) → (add_obj_child B M R E p c objs).count ≡ objs.count
  unfolding add_obj_child request_rebuild
  add_obj_child-count p c objs = request_from-count (suc p) p _

  add_obj_child-due :
      (p c : ℕ) (objs : Objs B M R E) → is_due B M R E (add_obj_child B M R E p c objs) p ≡ true
  unfolding add_obj_child request_rebuild
  add_obj_child-due p c objs =
      let a : Objs B M R E =
        update B M R E p
          (record (objs.object p) { obj_children = (objs.object p).obj_children ++ c ∷ [] }) objs in
      request_from-itself B M R E (suc p) p a (omega arith)

  new_rand_obj-IsAdded :
      (parent : Option ℕ) (g : Gen B M R E) (objs : Objs B M R E)
      → IsTree objs
      → ((q : ℕ) → parent ≡ some q → q < objs.count)
      → IsAdded parent g objs (new_rand_obj B M R E parent g objs)
  unfolding new_rand_obj
  new_rand_obj-IsAdded none g objs t f = (
    refl,
    refl,
    ap bare (born-here none g objs),
    (λ q e. absurd (ground arith)),
    (λ q n d. ap bare (born-away none g objs q n)),
  )
  new_rand_obj-IsAdded (some p) g objs t f =
      let made = born (some p) g objs in
      let n = objs.count in
      let l = f p refl in
      let apart : (n == p) ≡ false = ground (arith, l) in
      let apart' : (p == n) ≡ false = ground (arith, l) in
      (
        refl,
        add_obj_child-count p n made,
        add_obj_child-away p n n made apart' ∙ ap bare (born-here (some p) g objs),
        (λ q e.
            let same : p ≡ q = ground arith in
            subst
              (λ r.
                (content B M R E (add_obj_child B M R E p n made) r ≡ with_child n (objs.object r))
                × (is_due B M R E (add_obj_child B M R E p n made) r ≡ true))
              same
              (
                add_obj_child-here p n made ∙ ap (with_child n) (born-away (some p) g objs p apart),
                add_obj_child-due p n made,
              )),
        (λ q d e.
            let other : (p == q) ≡ false = ground (arith, e) in
            add_obj_child-away p n q made other ∙ ap bare (born-away (some p) g objs q d)),
      )

  -- A new object, with a parent that has been made if it has one, leaves a tree in which parents are
  -- older than their children and every child has been made. The object is the last one and has no
  -- children; its parent, if it has one, has it as its last child and needs a rebuild; and nothing else
  -- changes of any object, the rebuild flags aside.
  pub new_rand_obj-IsTree :
      (parent : Option ℕ) (g : Gen B M R E) (objs : Objs B M R E)
      → IsTree objs
      → ((q : ℕ) → parent ≡ some q → q < objs.count)
      → IsTree (new_rand_obj B M R E parent g objs).1
        × IsAdded parent g objs (new_rand_obj B M R E parent g objs)
  unfolding new_rand_obj
  new_rand_obj-IsTree none g objs t f =
      (one_more _ (update-IsTree objs.count _ objs t f tt), new_rand_obj-IsAdded none g objs t f)
  new_rand_obj-IsTree (some q) g objs t f = (
    add_obj_child-IsTree q objs.count _ (one_more _ (update-IsTree objs.count _ objs t f tt))
        (f q refl) (omega arith),
    new_rand_obj-IsAdded (some q) g objs t f,
  )
