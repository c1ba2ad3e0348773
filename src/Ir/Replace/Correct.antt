-- ===== src/Ir/Replace/Correct.antt =====
-- The visitor of crave/src/lib/ReplaceVisitor.cpp computes the instance of an expression at an index.
use mathlib.Core.Path.{subst}
use crave.Prelude.{ℕ, ◌≡◌, refl, sym, List, ◌∷◌, true, false, not, Option, none, some, arith}
use crave.Prelude.Result.{Result, ok, err, Returns}
use crave.Prelude.Int.{ℤ, pos, of_unsigned, of_bool, to_bool}
use crave.Ir.{
  Node, placeholder, variable_expr, constant, vector_expr, unary, inside, extend_expression, binary,
  vector_access, if_then_else, for_each, unique, bitslice,
}
use crave.Ir.Replace.{Element, Visitor, push_subscript, visit_terminal, visit, start_at}
use crave.Ir.Replace.Subscript.{unary_subscript, binary_subscript}
use crave.Ir.Replace.Reference.{index_node, instantiate, IsTyped}
use crave.Ir.Replace.Follows.{
  ids_of, after, IsConsistent, Follows, terminal-Follows, unary-Follows, wrapped-Follows,
  binary-Follows, ternary-Follows,
}
use crave.Ir.Replace.Access.{access-Follows}

module _ (σ : ℕ → Option Node) (ids : List ℕ) (i : ℕ) where
  -- For an expression in which each id stands for one terminal and only vectors are accessed, and a
  -- vector with an element at least, the visitor does what the instance says.
  pub visit-Follows :
      (n : Node) (s : Visitor)
      → (id : ℕ) × (rest : List ℕ) × (ids ≡ id ∷ rest)
      → IsTyped σ n
      → s.vec_idx ≡ i
      → IsConsistent σ ids i s.memory
      → Follows σ ids i s (instantiate ids i n) (visit n s)
  unfolding instantiate visit Follows
  visit-Follows (placeholder id) s l t x c =
      subst
        (λ j.
          Follows σ ids i s (ok (some (index_node i), of_unsigned i))
            (ok (push_subscript (of_unsigned j) (visit_terminal id (index_node j) s))))
        (sym x) (terminal-Follows σ ids i id (placeholder id) (of_unsigned i) s t c)
  visit-Follows (variable_expr id bs sg) s l t x c = terminal-Follows σ ids i id _ (pos 0) s t c
  visit-Follows (constant k) s l t x c = (constant k, s.memory, refl, c, ground arith, λ n h. cc)
  visit-Follows (vector_expr id bs sg) s l t x c = terminal-Follows σ ids i id _ (pos 0) s t c
  visit-Follows (unary op n) s l t x c =
      unary-Follows σ ids i (unary op) (unary_subscript op) (visit n) (instantiate ids i n) s
        (visit-Follows n s l t x c)
  visit-Follows (inside n cs) s l t x c =
      wrapped-Follows σ ids i (λ m. inside m cs) (visit n) (instantiate ids i n) s
        (visit-Follows n s l t x c)
  visit-Follows (extend_expression n k) s l t x c =
      wrapped-Follows σ ids i (λ m. extend_expression m k) (visit n) (instantiate ids i n) s
        (visit-Follows n s l t x c)
  visit-Follows (binary op a b) s l (t, u) x c =
      binary-Follows σ ids i (binary op) (binary_subscript op) (visit a) (visit b)
        (instantiate ids i a) (instantiate ids i b) s (visit-Follows a s l t x c) x
        ((λ r z d. visit-Follows b r l u z d))
  visit-Follows (vector_access a b) s l (v, bs, sg, e, t, u) x c = rw e (
      access-Follows σ ids i v bs sg (visit (vector_expr v bs sg)) (visit b) (instantiate ids i b) s
        l (terminal-Follows σ ids i v (vector_expr v bs sg) (pos 0) s t c) x
        (λ r z d. visit-Follows b r l u z d))
  visit-Follows (if_then_else p q r) s l (t, u, v) x c =
      ternary-Follows σ ids i (visit p) (visit q) (visit r) (instantiate ids i p)
        (instantiate ids i q) (instantiate ids i r) s (visit-Follows p s l t x c) x
        (λ y z d. visit-Follows q y l u z d) (λ y z d. visit-Follows r y l v z d)
  visit-Follows (for_each a b) s l t x c = visit-Follows b s l t x c
  visit-Follows (unique n) s l t x c = refl
  visit-Follows (bitslice n r k) s l t x c =
      unary-Follows σ ids i (λ m. bitslice m r k) (λ y. ok (of_bool (not (to_bool y)))) (visit n)
        (instantiate ids i n) s (visit-Follows n s l t x c)

-- What is left of a visit of the body at an index: the instance as the result, or `okay()` is false.
unfoldable pub Yields : List ℕ → Result (Option Node × ℤ) → Result Visitor → Type 0
Yields ids (err fault) r = r ≡ err fault
Yields ids (ok (none, x)) r =
    Returns r (λ t. (t.memory.okay ≡ false) × (ids_of t.memory.variables ≡ ids))
Yields ids (ok (some m, x)) r =
    Returns r (λ t. (t.memory.okay ≡ true) × (t.last ≡ some m) × (ids_of t.memory.variables ≡ ids))

Follows-Yields :
    (σ : ℕ → Option Node) (i : ℕ) (s : Visitor) (ids : List ℕ) (o : Result (Option Node × ℤ))
    (r : Result Visitor)
    → s.memory.okay ≡ true
    → Follows σ ids i s o r
    → Yields ids o r
unfolding Follows Yields
Follows-Yields σ i s ids (err fault) r k h = h
Follows-Yields σ i s ids (ok (none, x)) r j (m, g, h, c, k, e) =
    (after s g m x, h, (ground arith, c.1))
Follows-Yields σ i s ids (ok (some q, x)) r j (m, g, h, c, k, e) =
    (after s g m x, h, (ground arith, cc (e q refl), c.1))

-- The visit of the body of a `foreach` from a new visitor, or after `reset()`, at an index of a vector
-- that has an element at least, where each id of the body stands for one terminal and only vectors
-- are accessed: it ends in the error of the instance, or returns; then `okay()` says whether all
-- subscripts are in range, and if so `result()` is the instance. The elements keep their ids.
pub visit-Yields :
    (σ : ℕ → Option Node) (n : Node) (v : Element) (vs : List Element) (i : ℕ)
    → IsTyped σ n
    → Yields (ids_of (v ∷ vs)) (instantiate (ids_of (v ∷ vs)) i n) (visit n (start_at (v ∷ vs) i))
visit-Yields σ n v vs i t =
    let s : Visitor = start_at (v ∷ vs) i in
    Follows-Yields σ i s (ids_of (v ∷ vs)) (instantiate (ids_of (v ∷ vs)) i n) (visit n s) refl (
      visit-Follows σ (ids_of (v ∷ vs)) i n s (v.id, ids_of vs, refl) t refl ((λ id m h. cc), refl))
