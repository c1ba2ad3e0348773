-- ===== src/Frontend/Built.antt =====
-- The expressions that crave/src/crave/ir/Context.hpp builds: each id stands for one terminal in them.
use crave.Prelude.{
  ℕ, suc, ◌≤◌, ◌≡◌, refl, sym, ◌∙◌, List, [], ◌∷◌, map, none, some, ◌==◌, ==_iff, arith, Bool-cases,
  Option-cases, inl, inr,
}
use crave.Prelude.Int.{ℤ}
use crave.Ir.{
  Node, placeholder, variable_expr, constant, vector_expr, unary, inside, extend_expression, binary,
  vector_access, if_then_else, for_each, unique, bitslice,
}
use crave.Frontend.Signature.{IsNamed}
use crave.Frontend.{
  Traits, Span, Target, Context, point, in_range, in_ranges, dist_condition, new_var, target_node,
  vector_node, read_node, dist_var, dist_target, inside_node, dist_node,
}
use crave.Frontend.Signature.{
  Objects, other, known, IsSound, Extends, Extends-refl, Extends-trans, known-Extends,
}

-- The signature may grow.
pub IsNamed-more :
    (σ ρ : Objects)
    → ((id : ℕ) (n : Node) → σ id ≡ some n → ρ id ≡ some n)
    → (n : Node) → IsNamed σ n
    → IsNamed ρ n
IsNamed-more σ ρ f (placeholder id) h = f id _ h
IsNamed-more σ ρ f (variable_expr id bs sg) h = f id _ h
IsNamed-more σ ρ f (constant c) h = tt
IsNamed-more σ ρ f (vector_expr id bs sg) h = f id _ h
IsNamed-more σ ρ f (unary op n) h = IsNamed-more σ ρ f n h
IsNamed-more σ ρ f (inside n cs) h = IsNamed-more σ ρ f n h
IsNamed-more σ ρ f (extend_expression n k) h = IsNamed-more σ ρ f n h
IsNamed-more σ ρ f (binary op l r) (h, k) = (IsNamed-more σ ρ f l h, IsNamed-more σ ρ f r k)
IsNamed-more σ ρ f (vector_access l r) (v, bs, sg, e, t, k) =
    (v, bs, sg, e, f v _ t, IsNamed-more σ ρ f r k)
IsNamed-more σ ρ f (if_then_else a b c) (h, k, l) =
    (IsNamed-more σ ρ f a h, IsNamed-more σ ρ f b k, IsNamed-more σ ρ f c l)
IsNamed-more σ ρ f (for_each l r) (h, k) = (IsNamed-more σ ρ f l h, IsNamed-more σ ρ f r k)
IsNamed-more σ ρ f (unique n) h = IsNamed-more σ ρ f n h
IsNamed-more σ ρ f (bitslice n r l) h = IsNamed-more σ ρ f n h

in_ranges-IsNamed :
    (σ : Objects) (t : Traits) (tmp : Node) (spans : List Span) (so_far : Node)
    → IsNamed σ tmp
    → IsNamed σ so_far
    → IsNamed σ (in_ranges t tmp so_far spans)
unfolding in_ranges in_range
in_ranges-IsNamed σ t tmp [] so_far h k = k
in_ranges-IsNamed σ t tmp (r ∷ rs) so_far h k =
    in_ranges-IsNamed σ t tmp rs _ h (k, ((tt, h), (h, tt)))

dist_condition-IsNamed :
    (σ : Objects) (t : Traits) (tmp equal : Node) (spans : List Span)
    → IsNamed σ tmp
    → IsNamed σ equal
    → IsNamed σ (dist_condition t tmp equal spans)
unfolding dist_condition in_range
dist_condition-IsNamed σ t tmp equal [] h k = k
dist_condition-IsNamed σ t tmp equal (r ∷ rs) h k =
    (k, in_ranges-IsNamed σ t tmp rs _ h ((tt, h), (h, tt)))

module _ {A : Type 0} (τ : Objects) where
  -- A node that is built, with the context after it.
  abbrev pub IsMade : Context A → Node × Context A → Type 0
  IsMade c r = IsSound τ r.1 × Extends c r.1 × IsNamed (known τ r.1) r.0

  -- The variable of an id that has none yet.
  new_var-IsMade :
      (id : ℕ) (t : Traits) (c : Context A)
      → IsSound τ c
      → id ≤ c.last_id
      → ((k : Node) → τ id ≡ some k → variable_expr id (t.width) (t.sign) ≡ k)
      → c.variables id ≡ none
      → IsMade c (new_var id t c)
  unfolding new_var known
  new_var-IsMade id t c (o, k, v) l u e = (
    (
      o,
      (λ j n h. elim (Bool-cases (id == j)) [
        | inl b ↦
            let same : id ≡ j = (==_iff id j).0 b in
            let node : variable_expr id (t.width) (t.sign) ≡ n = ground arith in
            (rw (← same) l, λ m q. sym node ∙ u m (rw same q))
        | inr b ↦ k j n (ground arith)
      ]),
      v,
    ),
    (
      omega arith,
      (λ j n h. elim (Bool-cases (id == j)) [
        | inl b ↦
            let same : id ≡ j = (==_iff id j).0 b in
            let there : c.variables id ≡ some n = rw same h in cc
        | inr b ↦ rw b h
      ]),
    ),
    rw ((==_iff id id).1 refl, known) refl,
  )

  pub target-IsMade :
      (x : Target A) (c : Context A)
      → τ x.id ≡ some (variable_expr x.id (x.traits.width) (x.traits.sign))
      → IsSound τ c
      → IsMade c (target_node x c)
  unfolding target_node known
  target-IsMade x c h s = elim (Option-cases (c.variables x.id)) [
    | inl e ↦
        let m = new_var-IsMade x.id x.traits c s (s.0 x.id _ h) (λ k q. cc) e in
        elim (Option-cases x.written) [
          | inl w ↦ rw (target_node, e) (rw w m)
          | inr (a, w) ↦ rw (target_node, e) (rw w m)
        ]
    | inr (n, e) ↦
        let same : n ≡ variable_expr x.id (x.traits.width) (x.traits.sign) = (s.1 x.id n e).1 _ h in
        rw (target_node, e) (s, Extends-refl c, rw same (rw (known, e) (rw same refl)))
  ]

  -- A vector or a placeholder of the program is known, whatever the context has seen of it.
  pub known-object :
      (id : ℕ) (n : Node) (c : Context A)
      → IsSound τ c
      → τ id ≡ some n
      → other (some n) ≡ some n
      → known τ c id ≡ some n
  unfolding known
  known-object id n c s h o = elim (Option-cases (c.variables id)) [
    | inl e ↦ rw (known, e) (rw h o)
    | inr (m, e) ↦ let same = (s.1 id m e).1 _ h in rw (known, e) (rw same refl)
  ]

  pub vector-IsMade :
      (id : ℕ) (t : Traits) (c : Context A)
      → τ id ≡ some (vector_expr id (t.width) (t.sign))
      → IsSound τ c
      → IsMade c (vector_node id t c)
  unfolding vector_node known
  vector-IsMade id t c h (o, k, v) = elim (Option-cases (c.vector_variables id)) [
    | inl e ↦
        rw (vector_node, e)
          (
            (
              o,
              k,
              λ j n q. elim (Bool-cases (id == j)) [
                | inl b ↦ let same : id ≡ j = (==_iff id j).0 b in rw (← same) (h ∙ ground arith)
                | inr b ↦ v j n (ground arith)
              ],
            ),
            (omega arith, λ j n q. q),
            known-object id (vector_expr id (t.width) (t.sign)) c (o, k, v) h refl,
          )
    | inr (n, e) ↦
        let same : n ≡ vector_expr id (t.width) (t.sign) = let q = v id n e in cc in
        rw (vector_node, e)
          (
            (o, k, v),
            Extends-refl c,
            rw same (known-object id (vector_expr id (t.width) (t.sign)) c (o, k, v) h refl),
          )
  ]

  -- The node of a vector.
  pub vector_node-expr :
      (id : ℕ) (t : Traits) (c : Context A)
      → τ id ≡ some (vector_expr id (t.width) (t.sign))
      → IsSound τ c
      → (vector_node id t c).0 ≡ vector_expr id (t.width) (t.sign)
  unfolding vector_node
  vector_node-expr id t c h (o, k, v) = elim (Option-cases (c.vector_variables id)) [
    | inl e ↦ rw (vector_node, e) refl
    | inr (n, e) ↦ let q = v id n e in rw (vector_node, e) cc
  ]

  pub read-IsMade :
      (id : ℕ) (t : Traits) (a : A) (c : Context A)
      → τ id ≡ some (variable_expr id (t.width) (t.sign))
      → IsSound τ c
      → IsMade c (read_node id t a c)
  unfolding read_node known
  read-IsMade id t a c h s = elim (Option-cases (c.variables id)) [
    | inl e ↦ let m = new_var-IsMade id t c s (s.0 id _ h) (λ k q. cc) e in rw (read_node, e) m
    | inr (n, e) ↦
        let same : n ≡ variable_expr id (t.width) (t.sign) = (s.1 id n e).1 _ h in
        rw (read_node, e) (s, Extends-refl c, rw same (rw (known, e) (rw same refl)))
  ]

  -- The new variable has a new id.
  dist_var-IsMade :
      (t : Traits) (spans : List Span) (c : Context A)
      → IsSound τ c
      → IsMade c ((dist_var t spans c).1, (dist_var t spans c).2)
  unfolding dist_var known
  dist_var-IsMade t spans c (o, k, v) =
      let id = suc (c.last_id) in
      let c1 : Context A = record c { last_id = id } in
      let unseen : c.variables id ≡ none = elim (Option-cases (c.variables id)) [
        | inl e ↦ e
        | inr (n, e) ↦ absurd (let z = (k id n e).0 in omega arith)
      ] in
      let s1 : IsSound τ c1 = (
        (λ j n h. let z = o j n h in omega arith),
        (λ j n h. let (z, w) = k j n h in (omega arith, w)),
        v,
      ) in
      let (s, (l, f), h) =
        new_var-IsMade id t c1 s1 (omega arith) (λ n q. absurd (let z = o id n q in omega arith))
          unseen in
      (s, (omega arith, f), h)

  -- The equality with a variable that the context knows.
  dist_target-IsMade :
      (x : Target A) (id : ℕ) (tmp : Node) (c : Context A)
      → τ x.id ≡ some (variable_expr x.id (x.traits.width) (x.traits.sign))
      → IsSound τ c
      → IsNamed (known τ c) tmp
      → IsMade c (dist_target x id tmp c) × IsNamed (known τ (dist_target x id tmp c).1) tmp
  unfolding dist_target known
  dist_target-IsMade x id tmp c h s t =
      let (s1, e1, h1) = target-IsMade x c h s in
      let t1 =
        IsNamed-more (known τ c) (known τ (target_node x c).1)
          (known-Extends τ c (target_node x c).1 s1 e1) tmp t in
      ((s1, e1, (h1, t1)), t1)

  pub inside-IsMade :
      (x : Target A) (is : List ℤ) (c : Context A)
      → τ x.id ≡ some (variable_expr x.id (x.traits.width) (x.traits.sign))
      → IsSound τ c
      → IsMade c (inside_node x is c)
  unfolding inside_node
  inside-IsMade x is c h s =
      let (s1, e1, h1) = dist_var-IsMade x.traits (map point is) c s in
      let (id, tmp, d) = dist_var x.traits (map point is) c in
      let ((s2, e2, h2), t2) = dist_target-IsMade x id tmp d h s1 h1 in
      (s2, Extends-trans c d (dist_target x id tmp d).1 e1 e2, (h2, t2))

  pub dist-IsMade :
      (x : Target A) (t : Traits) (spans : List Span) (c : Context A)
      → τ x.id ≡ some (variable_expr x.id (x.traits.width) (x.traits.sign))
      → IsSound τ c
      → IsMade c (dist_node x t spans c)
  unfolding dist_node
  dist-IsMade x t spans c h s =
      let (s1, e1, h1) = dist_var-IsMade t spans c s in
      let (id, tmp, d) = dist_var t spans c in
      let ((s2, e2, h2), t2) = dist_target-IsMade x id tmp d h s1 h1 in
      let (equal, e) = dist_target x id tmp d in
      (s2, Extends-trans c d e e1 e2, dist_condition-IsNamed (known τ e) t tmp equal spans t2 h2)
