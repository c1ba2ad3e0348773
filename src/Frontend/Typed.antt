-- ===== src/Frontend/Typed.antt =====
-- Every expression that crave/src/crave/ir/Context.hpp builds is typed: the visitor of
-- crave/src/lib/ReplaceVisitor.cpp and the solvers find one terminal under each id.
use crave.Prelude.{◌≡◌, ◌⊎◌, refl, Bool, true, false, ◌||◌, ltb, leb, Bool-cases, inl, inr}
use mathlib.Core.Path.{subst}
use crave.Prelude.Result.{Result, Fault, Result-cases, ok, err, runtime_error, ◌>>=◌}
use crave.Ir.{
  bool_constant, Node, placeholder, constant, vector_expr, unary, binary, vector_access,
  if_then_else, for_each, unique,
}
use crave.Frontend.Signature.{IsNamed}
use crave.Frontend.{
  Expr, target, vector_term, placeholder_term, stored, read_reference, value, bool_value,
  unary_expr, binary_expr, if_then, if_then_else_expr, inside_expr, dist_expr, foreach_expr,
  unique_expr, subscript, bitslice_expr, Context, Visit, bitslice_node, both_of, three_of, to_node,
}
use crave.Frontend.Signature.{
  Objects, known, IsSound, Extends, Extends-refl, Extends-trans, known-Extends, IsWritten,
}
use crave.Frontend.Built.{
  IsNamed-more, IsMade, known-object, vector_node-expr, target-IsMade, vector-IsMade, read-IsMade,
  inside-IsMade, dist-IsMade,
}

-- The only error of a context.
abbrev pub invalid_range : Fault
invalid_range = runtime_error "Invalid range of bitslice"

abbrev Any : Node → Type 0
Any n = Unit

module _ {A : Type 0} (τ : Objects) where
  -- The call returns a node that is typed and has a property, or throws.
  unfoldable pub Makes : (Node → Type 0) → Context A → Result (Node × Context A) → Type 0
  Makes Q c (err fault) = fault ≡ invalid_range
  Makes Q c (ok r) = IsMade τ c r × Q r.0

  -- The same of two nodes, of which the first one has the property.
  unfoldable pub MakesBoth : (Node → Type 0) → Context A → Result (Node × Node × Context A) → Type 0
  MakesBoth Q c (err fault) = fault ≡ invalid_range
  MakesBoth Q c (ok (a, b, d)) =
      IsSound τ d × Extends c d × IsNamed (known τ d) a × IsNamed (known τ d) b × Q a

  unfoldable pub MakesThree : Context A → Result (Node × Node × Node × Context A) → Type 0
  MakesThree c (err fault) = fault ≡ invalid_range
  MakesThree c (ok (p, q, r, d)) =
      IsSound τ d
      × Extends c d
      × IsNamed (known τ d) p
      × IsNamed (known τ d) q
      × IsNamed (known τ d) r

  -- A node typed before is typed after.
  stays :
      (c d : Context A) (n : Node)
      → IsSound τ d
      → Extends c d
      → IsNamed (known τ c) n
      → IsNamed (known τ d) n
  stays c d n s e h = IsNamed-more (known τ c) (known τ d) (known-Extends τ c d s e) n h

  one-Makes :
      (f : Node → Node) (c : Context A) (r : Result (Node × Context A))
      → ((σ : Objects) (n : Node) → IsNamed σ n → IsNamed σ (f n))
      → Makes Any c r
      → Makes Any c (r >>= λ (n, d). ok (f n, d))
  unfolding Makes
  one-Makes f c (err fault) k h = h
  one-Makes f c (ok (n, d)) k ((s, e, t), q) = ((s, e, k (known τ d) n t), q)

  two-Makes :
      (Q : Node → Type 0) (f : Node → Node → Node) (c : Context A)
      (r : Result (Node × Node × Context A))
      → ((σ : Objects) (a b : Node) → IsNamed σ a → IsNamed σ b → Q a → IsNamed σ (f a b))
      → MakesBoth Q c r
      → Makes Any c (r >>= λ (a, b, d). ok (f a b, d))
  unfolding Makes MakesBoth
  two-Makes Q f c (err fault) k h = h
  two-Makes Q f c (ok (a, b, d)) k (s, e, t, u, q) = ((s, e, k (known τ d) a b t u q), tt)

  three-Makes :
      (c : Context A) (r : Result (Node × Node × Node × Context A))
      → MakesThree c r
      → Makes Any c (r >>= λ (p, q, r, d). ok (if_then_else p q r, d))
  unfolding Makes MakesThree
  three-Makes c (err fault) h = h
  three-Makes c (ok (p, q, r, d)) (s, e, t, u, v) = ((s, e, (t, u, v)), tt)

  -- A visit from a later context.
  abbrev Always : (Node → Type 0) → Context A → Visit A → Type 0
  Always Q c v = (d : Context A) → IsSound τ d → Extends c d → Makes Q d (v d)

  -- The second of two calls, after one that returned a node.
  next-Makes :
      (c d e : Context A) (a : Node)
      → Extends c d
      → IsNamed (known τ d) a
      → IsSound τ e
      → Extends d e
      → Extends c e × IsNamed (known τ e) a
  next-Makes c d e a x t s y = (Extends-trans c d e x y, stays d e a s y t)

  left_first :
      (Q : Node → Type 0) (c : Context A) (l : Result (Node × Context A)) (r : Visit A)
      → Makes Q c l
      → Always Any c r
      → MakesBoth Q c (l >>= λ (a, d). r d >>= λ (b, e). ok (a, b, e))
  unfolding Makes MakesBoth
  left_first Q c (err fault) r h k = h
  left_first Q c (ok (a, d)) r ((s, x, t), q) k = second (r d) (k d s x)
    where
      second :
          (w : Result (Node × Context A))
          → Makes Any d w
          → MakesBoth Q c (w >>= λ (b, e). ok (a, b, e))
      second (err fault) h = h
      second (ok (b, e)) ((s', y, u), _) =
          let (z, t') = next-Makes c d e a x t s' y in (s', z, t', u, q)

  right_first :
      (Q : Node → Type 0) (c : Context A) (l : Visit A) (r : Result (Node × Context A))
      → Makes Any c r
      → Always Q c l
      → MakesBoth Q c (r >>= λ (b, d). l d >>= λ (a, e). ok (a, b, e))
  unfolding Makes MakesBoth
  right_first Q c l (err fault) h k = h
  right_first Q c l (ok (b, d)) ((s, x, t), _) k = second (l d) (k d s x)
    where
      second :
          (w : Result (Node × Context A))
          → Makes Q d w
          → MakesBoth Q c (w >>= λ (a, e). ok (a, b, e))
      second (err fault) h = h
      second (ok (a, e)) ((s', y, u), q) =
          let (z, t') = next-Makes c d e b x t s' y in (s', z, u, t', q)

  both-Makes :
      (Q : Node → Type 0) (o : Bool) (c : Context A) (l r : Visit A)
      → IsSound τ c
      → Always Q c l
      → Always Any c r
      → MakesBoth Q c (both_of o l r c)
  both-Makes Q true c l r s h k = right_first Q c l (r c) (k c s (Extends-refl c)) h
  both-Makes Q false c l r s h k = left_first Q c (l c) r (h c s (Extends-refl c)) k

  from_left :
      (c : Context A) (x y z : Visit A)
      → IsSound τ c
      → Always Any c x
      → Always Any c y
      → Always Any c z
      → MakesThree c (three_of false x y z c)
  unfolding Makes MakesThree
  from_left c x y z s hx hy hz = elim (Result-cases (x c)) [
    | inr (f, e) ↦ rw e (subst (Makes Any c) e (hx c s (Extends-refl c)))
    | inl ((p, d), e) ↦
        let ((s1, x1, t1), _) = subst (Makes Any c) e (hx c s (Extends-refl c)) in
        elim (Result-cases (y d)) [
          | inr (f, e1) ↦ rw e (rw e1 (subst (Makes Any d) e1 (hy d s1 x1)))
          | inl ((q, d1), e1) ↦
              let ((s2, x2, t2), _) = subst (Makes Any d) e1 (hy d s1 x1) in
              let (y2, p2) = next-Makes c d d1 p x1 t1 s2 x2 in
              elim (Result-cases (z d1)) [
                | inr (f, e2) ↦ rw e (rw e1 (rw e2 (subst (Makes Any d1) e2 (hz d1 s2 y2))))
                | inl ((r, d2), e2) ↦
                    let ((s3, x3, t3), _) = subst (Makes Any d1) e2 (hz d1 s2 y2) in
                    rw e (
                      rw e1 (
                        rw e2 (
                          s3,
                          Extends-trans c d1 d2 y2 x3,
                          stays d1 d2 p s3 x3 p2,
                          stays d1 d2 q s3 x3 t2,
                          t3,
                        )))
              ]
        ]
  ]

  from_right :
      (c : Context A) (x y z : Visit A)
      → IsSound τ c
      → Always Any c x
      → Always Any c y
      → Always Any c z
      → MakesThree c (three_of true x y z c)
  unfolding Makes MakesThree
  from_right c x y z s hx hy hz = elim (Result-cases (z c)) [
    | inr (f, e) ↦ rw e (subst (Makes Any c) e (hz c s (Extends-refl c)))
    | inl ((r, d), e) ↦
        let ((s1, x1, t1), _) = subst (Makes Any c) e (hz c s (Extends-refl c)) in
        elim (Result-cases (y d)) [
          | inr (f, e1) ↦ rw e (rw e1 (subst (Makes Any d) e1 (hy d s1 x1)))
          | inl ((q, d1), e1) ↦
              let ((s2, x2, t2), _) = subst (Makes Any d) e1 (hy d s1 x1) in
              let (y2, r2) = next-Makes c d d1 r x1 t1 s2 x2 in
              elim (Result-cases (x d1)) [
                | inr (f, e2) ↦ rw e (rw e1 (rw e2 (subst (Makes Any d1) e2 (hx d1 s2 y2))))
                | inl ((p, d2), e2) ↦
                    let ((s3, x3, t3), _) = subst (Makes Any d1) e2 (hx d1 s2 y2) in
                    rw e (
                      rw e1 (
                        rw e2 (
                          s3,
                          Extends-trans c d1 d2 y2 x3,
                          t3,
                          stays d1 d2 q s3 x3 t2,
                          stays d1 d2 r s3 x3 r2,
                        )))
              ]
        ]
  ]

  all-Makes :
      (o : Bool) (c : Context A) (x y z : Visit A)
      → IsSound τ c
      → Always Any c x
      → Always Any c y
      → Always Any c z
      → MakesThree c (three_of o x y z c)
  all-Makes true c x y z s hx hy hz = from_right c x y z s hx hy hz
  all-Makes false c x y z s hx hy hz = from_left c x y z s hx hy hz

  pub to_node-Makes :
      (o : Bool) (e : Expr A) (c0 c : Context A)
      → IsWritten τ c0 e
      → Extends c0 c
      → IsSound τ c
      → Makes Any c (to_node o e c)
  unfolding Makes to_node bitslice_node
  to_node-Makes o (target x) c0 c w x0 s = (target-IsMade τ x c w s, tt)
  to_node-Makes o (vector_term id t) c0 c w x0 s = (vector-IsMade τ id t c w s, tt)
  to_node-Makes o (placeholder_term id) c0 c w x0 s =
      ((s, Extends-refl c, known-object τ id (placeholder id) c s w refl), tt)
  to_node-Makes o (stored n) c0 c w x0 s = ((s, Extends-refl c, stays c0 c n s x0 w), tt)
  to_node-Makes o (read_reference id t a) c0 c w x0 s = (read-IsMade τ id t a c w s, tt)
  to_node-Makes o (value t i) c0 c w x0 s = ((s, Extends-refl c, tt), tt)
  to_node-Makes o (bool_value b) c0 c w x0 s = ((s, Extends-refl c, tt), tt)
  to_node-Makes o (unary_expr op e) c0 c w x0 s =
      one-Makes (unary op) c (to_node o e c) (λ σ n h. h) (to_node-Makes o e c0 c w x0 s)
  to_node-Makes o (binary_expr op l r) c0 c (w, v) x0 s =
      two-Makes Any (binary op) c (both_of o (to_node o l) (to_node o r) c) (λ σ a b h k q. (h, k))
        (both-Makes Any o c (to_node o l) (to_node o r) s
          (λ d t z. to_node-Makes o l c0 d w (Extends-trans c0 c d x0 z) t)
          (λ d t z. to_node-Makes o r c0 d v (Extends-trans c0 c d x0 z) t))
  to_node-Makes o (if_then l r) c0 c (w, v) x0 s =
      two-Makes Any (λ a b. if_then_else a b (constant (bool_constant true))) c
        (both_of o (to_node o l) (to_node o r) c) (λ σ a b h k q. (h, k, tt))
        (both-Makes Any o c (to_node o l) (to_node o r) s
          (λ d t z. to_node-Makes o l c0 d w (Extends-trans c0 c d x0 z) t)
          (λ d t z. to_node-Makes o r c0 d v (Extends-trans c0 c d x0 z) t))
  to_node-Makes o (if_then_else_expr p q r) c0 c (w, v, u) x0 s =
      three-Makes c (three_of o (to_node o p) (to_node o q) (to_node o r) c) (
        all-Makes o c (to_node o p) (to_node o q) (to_node o r) s
          (λ d t z. to_node-Makes o p c0 d w (Extends-trans c0 c d x0 z) t)
          (λ d t z. to_node-Makes o q c0 d v (Extends-trans c0 c d x0 z) t)
          (λ d t z. to_node-Makes o r c0 d u (Extends-trans c0 c d x0 z) t))
  to_node-Makes o (inside_expr x is) c0 c w x0 s = (inside-IsMade τ x is c w s, tt)
  to_node-Makes o (dist_expr x t spans) c0 c w x0 s = (dist-IsMade τ x t spans c w s, tt)
  to_node-Makes o (foreach_expr l r) c0 c (w, v) x0 s =
      two-Makes Any for_each c (both_of o (to_node o l) (to_node o r) c) (λ σ a b h k q. (h, k))
        (both-Makes Any o c (to_node o l) (to_node o r) s
          (λ d t z. to_node-Makes o l c0 d w (Extends-trans c0 c d x0 z) t)
          (λ d t z. to_node-Makes o r c0 d v (Extends-trans c0 c d x0 z) t))
  to_node-Makes o (unique_expr e) c0 c w x0 s =
      one-Makes unique c (to_node o e c) (λ σ n h. h) (to_node-Makes o e c0 c w x0 s)
  to_node-Makes o (subscript l r) c0 c (v, t, e, h, w) x0 s = rw e (
      two-Makes (λ a. a ≡ vector_expr v (t.width) (t.sign)) vector_access c
        (both_of o (to_node o (vector_term v t)) (to_node o r) c)
        (λ σ a b k m q. (v, t.width, t.sign, q, subst (IsNamed σ) q k, m))
        (both-Makes (λ a. a ≡ vector_expr v (t.width) (t.sign)) o c (to_node o (vector_term v t))
          (to_node o r) s (λ d y z. (vector-IsMade τ v t d h y, vector_node-expr τ v t d h y))
          (λ d y z. to_node-Makes o r c0 d w (Extends-trans c0 c d x0 z) y)))
  to_node-Makes o (bitslice_expr r l x) c0 c w x0 s =
      elim (Bool-cases (ltb r l || leb (x.traits.width) r)) [
        | inl b ↦ rw (b, bitslice_node) refl
        | inr b ↦ rw (b, bitslice_node) (target-IsMade τ x c w s, tt)
      ]

  -- What a call of the context ends in.
  abbrev pub IsBuilt : Context A → Result (Node × Context A) → Type 0
  IsBuilt c r =
      ((n : Node) × (d : Context A) × (r ≡ ok (n, d))
        × IsSound τ d
        × Extends c d
        × IsNamed (known τ d) n)
      ⊎ (r ≡ err invalid_range)
