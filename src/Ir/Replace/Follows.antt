-- ===== src/Ir/Replace/Follows.antt =====
-- What each visit of crave/src/lib/ReplaceVisitor.cpp does beside the instance: the lemmas for terminals
-- and for nodes with one, two and three children.
use crave.Prelude.{
  ℕ, ◌≡◌, refl, List, ◌∷◌, map, ◌&&◌, Option, none, some, ◌==◌, if◌then◌else◌, arith, Option-cases,
  Bool-cases, inl, inr, ==_iff,
}
use crave.Prelude.Result.{Result, ok, err, ◌>>=◌, Result-cases}
use crave.Prelude.Int.{ℤ, to_bool}
use crave.Ir.{Node, placeholder, if_then_else}
use crave.Ir.Replace.{
  Element, Memory, Visitor, Visit, push_node, push_subscript, visit_terminal, eval_unary, eval_bin,
  eval_tern, unary_top, binary_top, ternary_top,
}
use crave.Ir.Replace.Reference.{both, all_three, apply, is_some, index_node}

-- What a terminal becomes at an index.
abbrev pub filled : ℕ → Node → Node
filled i (placeholder id) = index_node i
filled i n = n

abbrev pub ids_of : List Element → List ℕ
ids_of vs = map (λ e. e.id) vs

-- The state after a visit that leaves one tree and one subscript.
abbrev pub after : Visitor → Memory → Node → ℤ → Visitor
after s g m x = record s {
  memory = g;
  aux_stack = m ∷ s.aux_stack;
  subscript_stack = x ∷ s.subscript_stack;
  last = some m;
}

-- A tree that is the instance, if there is one.
abbrev pub Gives : Option Node → Node → Type 0
Gives o m = (n : Node) → o ≡ some n → m ≡ n

pub apply-eq :
    (f : Node → Node) (o : Option Node) (m n : Node) → Gives o m → apply f o ≡ some n → f m ≡ n
apply-eq f none m n e z = cc
apply-eq f (some k) m n e z = cc (e k refl)

pub both-eq :
    (f : Node → Node → Node) (a b : Option Node) (m p n : Node)
    → Gives a m
    → Gives b p
    → both f a b ≡ some n
    → f m p ≡ n
both-eq f none b m p n d e z = cc
both-eq f (some k) none m p n d e z = cc
both-eq f (some k) (some j) m p n d e z = cc (d k refl, e j refl)

pub second-eq : (a b : Option Node) (m n : Node) → Gives b m → both (λ x y. y) a b ≡ some n → m ≡ n
second-eq none b m n e z = cc
second-eq (some k) none m n e z = cc
second-eq (some k) (some j) m n e z = cc (e j refl)

pub three-eq :
    (a b c : Option Node) (m p q n : Node)
    → Gives a m
    → Gives b p
    → Gives c q
    → all_three a b c ≡ some n
    → if_then_else m p q ≡ n
three-eq none b c m p q n d e f z = cc
three-eq (some k) b c m p q n d e f z = both-eq (if_then_else m) b c p q n e f (rw (d k refl) z)

module _ (σ : ℕ → Option Node) (ids : List ℕ) (i : ℕ) where
  -- The memory of the visitor: `terminals_` holds what the ids stand for, and the elements have
  -- their ids.
  abbrev pub IsConsistent : Memory → Type 0
  IsConsistent g =
      ((id : ℕ) (m : Node)
        → g.terminals id ≡ some m
        → (n : Node) × (σ id ≡ some n) × (m ≡ filled i n))
      × (ids_of g.variables ≡ ids)

  -- The visit does what the instance says: it fails likewise, or leaves one tree, which is the
  -- instance if there is one, and one subscript; it is still okay if there is an instance.
  unfoldable pub Follows : Visitor → Result (Option Node × ℤ) → Result Visitor → Type 0
  Follows s (err fault) r = r ≡ err fault
  Follows s (ok (o, x)) r =
      (m : Node) × (g : Memory) × (r ≡ ok (after s g m x))
      × IsConsistent g
      × (g.okay ≡ (s.memory.okay && is_some o))
      × ((n : Node) → o ≡ some n → m ≡ n)

  -- The terminals after a new one.
  fresh :
      (id j : ℕ) (n m : Node) (t : ℕ → Option Node)
      → σ id ≡ some n
      → ((id : ℕ) (m : Node) → t id ≡ some m → (n : Node) × (σ id ≡ some n) × (m ≡ filled i n))
      → (if id == j then some (filled i n) else t j) ≡ some m
      → (p : Node) × (σ j ≡ some p) × (m ≡ filled i p)
  fresh id j n m t k c h = elim (Bool-cases (id == j)) [
    | inl b ↦ (n, rw (← (==_iff id j).0 b) k, ground arith)
    | inr b ↦ c j m (ground arith)
  ]

  pub terminal-Follows :
      (id : ℕ) (n : Node) (x : ℤ) (s : Visitor)
      → σ id ≡ some n
      → IsConsistent s.memory
      → Follows s
          (ok (some (filled i n), x))
          (ok (push_subscript x (visit_terminal id (filled i n) s)))
  unfolding Follows visit_terminal
  terminal-Follows id n x s k (c, e) = elim (Option-cases (s.memory.terminals id)) [
    | inl t ↦ (
      filled i n,
      record (s.memory) {
        terminals = λ j. if id == j then some (filled i n) else s.memory.terminals j;
      },
      rw (visit_terminal, t) refl,
      ((λ j m h. fresh id j n m s.memory.terminals k c h), e),
      ground arith,
      λ m h. cc,
    )
    | inr (m, t) ↦ (
      m,
      s.memory,
      rw (visit_terminal, t) refl,
      (c, e),
      ground arith,
      λ p h. let (q, k', m') = c id m t in cc,
    )
  ]

  -- A node with one child, of which the subscript is computed anew.
  pub unary-Follows :
      (f : Node → Node) (g : ℤ → Result ℤ) (v : Visit) (r : Result (Option Node × ℤ)) (s : Visitor)
      → Follows s r (v s)
      → Follows s
          (r >>= λ (a, x). g x >>= λ y. ok (apply f a, y))
          (eval_unary v s >>= λ (c, t). unary_top g (push_node (f c) t))
  unfolding Follows
  unary-Follows f g v (err fault) s h = rw h refl
  unary-Follows f g v (ok (o, x)) s (m, w, h, c, k, e) = elim (Result-cases (g x)) [
    | inl (y, q) ↦
        rw q (f m, w, rw h (rw q refl), c, rw k (ground arith), λ n z. apply-eq f o m n e z)
    | inr (fault, q) ↦ rw q (rw h (rw q refl))
  ]

  -- A node with one child, of which the subscript is left.
  pub wrapped-Follows :
      (f : Node → Node) (v : Visit) (r : Result (Option Node × ℤ)) (s : Visitor)
      → Follows s r (v s)
      → Follows s
          (r >>= λ (a, x). ok (apply f a, x))
          (eval_unary v s >>= λ (c, t). ok (push_node (f c) t))
  unfolding Follows
  wrapped-Follows f v (err fault) s h = rw h refl
  wrapped-Follows f v (ok (o, x)) s (m, w, h, c, k, e) =
      (f m, w, rw h refl, c, rw k (ground arith), λ n z. apply-eq f o m n e z)

  -- A visit from any later state.
  abbrev pub Always : Result (Option Node × ℤ) → Visit → Type 0
  Always r v = (s : Visitor) → s.vec_idx ≡ i → IsConsistent s.memory → Follows s r (v s)

  pub binary-Follows :
      (f : Node → Node → Node) (g : ℤ → ℤ → Result ℤ) (v w : Visit) (a b : Result (Option Node × ℤ))
      (s : Visitor)
      → Follows s a (v s)
      → s.vec_idx ≡ i
      → Always b w
      → Follows s
          (a >>= λ (p, x). b >>= λ (q, y). g x y >>= λ z. ok (both f p q, z))
          (eval_bin v w s >>= λ (c, d, t). binary_top g (push_node (f c d) t))
  unfolding Follows
  binary-Follows f g v w (err fault) b s h j r = rw h refl
  binary-Follows f g v w (ok (p, x)) (err fault) s (m, u, h, c, k, e) j r =
      rw h (rw (r (after s u m x) j c) refl)
  binary-Follows f g v w (ok (p, x)) (ok (q, y)) s (m, u, h, c, k, e) j r =
      let (m', u', h', c', k', e') = r (after s u m x) j c in
      elim (Result-cases (g x y)) [
        | inl (z, i) ↦ rw i (
          f m m',
          u',
          rw h (rw h' (rw i refl)),
          c',
          ground arith,
          λ n l. both-eq f p q m m' n e e' l,
        )
        | inr (fault, i) ↦ rw i (rw h (rw h' (rw i refl)))
      ]

  pub ternary-Follows :
      (u v w : Visit) (a b c : Result (Option Node × ℤ)) (s : Visitor)
      → Follows s a (u s)
      → s.vec_idx ≡ i
      → Always b v
      → Always c w
      → Follows s
          (a >>= λ (p, x).
            b >>= λ (q, y). c >>= λ (r, z). ok (all_three p q r, if to_bool x then y else z))
          (eval_tern u v w s >>= λ (x, y, z, t). ternary_top (push_node (if_then_else x y z) t))
  unfolding Follows
  ternary-Follows u v w (err fault) b c s h j d e = rw h refl
  ternary-Follows u v w (ok (p, x)) (err fault) c s (m, g, h, k, o, l) j d e =
      rw h (rw (d (after s g m x) j k) refl)
  ternary-Follows u v w (ok (p, x)) (ok (q, y)) (err fault) s (m, g, h, k, o, l) j d e =
      let (m', g', h', k', o', l') = d (after s g m x) j k in
      rw h (rw h' (rw (e (after (after s g m x) g' m' y) j k') refl))
  ternary-Follows u v w (ok (p, x)) (ok (q, y)) (ok (r, z)) s (m, g, h, k, o, l) j d e =
      let (m', g', h', k', o', l') = d (after s g m x) j k in
      let (m2, g2, h2, k2, o2, l2) = e (after (after s g m x) g' m' y) j k' in
      (
        if_then_else m m' m2,
        g2,
        rw h (rw h' (rw h2 refl)),
        k2,
        ground arith,
        λ n z. three-eq p q r m m' m2 n l l' l2 z,
      )
