-- ===== src/VectorGenerator/Ground.antt =====
-- The shape of the instance of an expression, by which the solvers of
-- crave/src/lib/metaSMTNodeVisitorImpl.hpp take it.
use crave.Prelude.{
  ℕ, ◌≡◌, refl, ◌∙◌, List, Bool, true, false, not, ◌&&◌, Option, none, some, arith, if◌then◌else◌,
  Option-cases, inl, inr,
}
use crave.Prelude.Result.{Result, ok, err, ◌>>=◌}
use crave.Prelude.Int.{ℤ, pos, of_bool, to_bool}
use crave.Ir.{
  Node, placeholder, variable_expr, constant, vector_expr, unary, inside, extend_expression, binary,
  vector_access, if_then_else, for_each, unique, bitslice,
}
use crave.Ir.Eval.Direct.{is_filled}
use crave.Solver.Translation.{is_scalar}
use crave.Ir.Replace.Subscript.{unary_subscript, binary_subscript}
use crave.Ir.Replace.Reference.{both, all_three, apply, chosen, instantiate}

-- A vector stands only where it is accessed, and there is no `unique`.
unfoldable pub is_subscripted : Node → Bool
is_subscripted (vector_expr id bs sg) = false
is_subscripted (unary op n) = is_subscripted n
is_subscripted (inside n cs) = is_subscripted n
is_subscripted (extend_expression n k) = is_subscripted n
is_subscripted (binary op l r) = is_subscripted l && is_subscripted r
is_subscripted (vector_access l r) = true
is_subscripted (if_then_else a b c) = is_subscripted a && (is_subscripted b && is_subscripted c)
is_subscripted (for_each l r) = is_subscripted r
is_subscripted (unique n) = false
is_subscripted (bitslice n r l) = is_subscripted n
is_subscripted _ = true

-- The instance, if there is one, has no placeholder, and is scalar as given.
unfoldable pub IsGround : Bool → Result (Option Node × ℤ) → Type 0
IsGround b (ok (some m, x)) = (is_filled m ≡ true) × (is_scalar m ≡ b)
IsGround b _ = Unit

-- A call of `instantiate`, and what is made of a tree that it gives.
one-IsGround :
    (b : Bool) (f : Node → Node) (o : Option Node) (x : ℤ) (q : Result ℤ)
    → ((m : Node) → (is_filled (f m) ≡ is_filled m) × (is_scalar (f m) ≡ is_scalar m))
    → IsGround b (ok (o, x))
    → IsGround b (q >>= λ y. ok (apply f o, y))
unfolding IsGround
one-IsGround b f o x (err fault) k h = tt
one-IsGround b f none x (ok y) k h = tt
one-IsGround b f (some m) x (ok y) k (p, q) = let (i, j) = k m in (i ∙ p, j ∙ q)

unary-IsGround :
    (b : Bool) (f : Node → Node) (g : ℤ → Result ℤ) (r : Result (Option Node × ℤ))
    → ((m : Node) → (is_filled (f m) ≡ is_filled m) × (is_scalar (f m) ≡ is_scalar m))
    → IsGround b r
    → IsGround b (r >>= λ (a, x). g x >>= λ y. ok (apply f a, y))
unfolding IsGround
unary-IsGround b f g (err fault) k h = tt
unary-IsGround b f g (ok (o, x)) k h = one-IsGround b f o x (g x) k h

-- Two trees under an operator.
two-IsGround :
    (b c : Bool) (f : Node → Node → Node) (o p : Option Node) (x y : ℤ) (q : Result ℤ)
    → ((m n : Node)
        → (is_filled (f m n) ≡ (is_filled m && is_filled n))
          × (is_scalar (f m n) ≡ (is_scalar m && is_scalar n)))
    → IsGround b (ok (o, x))
    → IsGround c (ok (p, y))
    → IsGround (b && c) (q >>= λ z. ok (both f o p, z))
unfolding IsGround
two-IsGround b c f o p x y (err fault) k h i = tt
two-IsGround b c f none p x y (ok z) k h i = tt
two-IsGround b c f (some m) none x y (ok z) k h i = tt
two-IsGround b c f (some m) (some n) x y (ok z) k (h, i) (h', i') =
    let (l, l') = k m n in (rw l (rw h h'), rw l' (rw i (rw i' refl)))

binary-IsGround :
    (b c : Bool) (f : Node → Node → Node) (g : ℤ → ℤ → Result ℤ) (r s : Result (Option Node × ℤ))
    → ((m n : Node)
        → (is_filled (f m n) ≡ (is_filled m && is_filled n))
          × (is_scalar (f m n) ≡ (is_scalar m && is_scalar n)))
    → IsGround b r
    → IsGround c s
    → IsGround (b && c) (r >>= λ (p, x). s >>= λ (q, y). g x y >>= λ z. ok (both f p q, z))
unfolding IsGround
binary-IsGround b c f g (err fault) s k h i = tt
binary-IsGround b c f g (ok (p, x)) (err fault) k h i = tt
binary-IsGround b c f g (ok (p, x)) (ok (q, y)) k h i = two-IsGround b c f p q x y (g x y) k h i

three-IsGround :
    (b c d : Bool) (o p q : Option Node) (x y z w : ℤ)
    → IsGround b (ok (o, x))
    → IsGround c (ok (p, y))
    → IsGround d (ok (q, z))
    → IsGround (b && (c && d)) (ok (all_three o p q, w))
unfolding IsGround is_filled is_scalar
three-IsGround b c d none p q x y z w h i j = tt
three-IsGround b c d (some m) none q x y z w h i j = tt
three-IsGround b c d (some m) (some n) none x y z w h i j = tt
three-IsGround b c d (some m) (some n) (some k) x y z w h i j = ground arith

ternary-IsGround :
    (b c d : Bool) (r s t : Result (Option Node × ℤ))
    → IsGround b r
    → IsGround c s
    → IsGround d t
    → IsGround (b && (c && d)) (
        r >>= λ (p, x).
        s >>= λ (q, y). t >>= λ (u, z). ok (all_three p q u, if to_bool x then y else z))
unfolding IsGround
ternary-IsGround b c d (err fault) s t h i j = tt
ternary-IsGround b c d (ok (p, x)) (err fault) t h i j = tt
ternary-IsGround b c d (ok (p, x)) (ok (q, y)) (err fault) h i j = tt
ternary-IsGround b c d (ok (p, x)) (ok (q, y)) (ok (u, z)) h i j =
    three-IsGround b c d p q u x y z (if to_bool x then y else z) h i j

-- An element of a vector is a variable.
chosen-IsGround :
    (ids : List ℕ) (y : ℤ) (l m : Node)
    → chosen ids y l ≡ some m
    → (is_filled m ≡ true) × (is_scalar m ≡ true)
unfolding chosen is_filled is_scalar
chosen-IsGround ids y (vector_expr v bs sg) m h = ground arith
chosen-IsGround ids y _ m h = cc

access-IsGround :
    (ids : List ℕ) (l : Node) (r : Result (Option Node × ℤ))
    → IsGround true (r >>= λ (b, y). ok (both (λ m e. e) b (chosen ids y l), pos 0))
unfolding IsGround
access-IsGround ids l (err fault) = tt
access-IsGround ids l (ok (none, y)) = tt
access-IsGround ids l (ok (some k, y)) = elim (Option-cases (chosen ids y l)) [
  | inl n ↦ rw n tt
  | inr (m, e) ↦ rw e (chosen-IsGround ids y l m e)
]

pub instantiate-IsGround :
    (ids : List ℕ) (i : ℕ) (n : Node) → IsGround (is_subscripted n) (instantiate ids i n)
unfolding IsGround instantiate is_subscripted is_filled is_scalar
instantiate-IsGround ids i (placeholder id) = (refl, refl)
instantiate-IsGround ids i (variable_expr id bs sg) = (refl, refl)
instantiate-IsGround ids i (constant c) = (refl, refl)
instantiate-IsGround ids i (vector_expr id bs sg) = (refl, refl)
instantiate-IsGround ids i (unary op n) =
    unary-IsGround _ (unary op) (unary_subscript op) (instantiate ids i n) (λ m. (refl, refl))
      (instantiate-IsGround ids i n)
instantiate-IsGround ids i (inside n cs) =
    unary-IsGround _ (λ m. inside m cs) ok (instantiate ids i n) (λ m. (refl, refl))
      (instantiate-IsGround ids i n)
instantiate-IsGround ids i (extend_expression n k) =
    unary-IsGround _ (λ m. extend_expression m k) ok (instantiate ids i n) (λ m. (refl, refl))
      (instantiate-IsGround ids i n)
instantiate-IsGround ids i (binary op l r) =
    binary-IsGround (is_subscripted l) (is_subscripted r) (binary op) (binary_subscript op)
      (instantiate ids i l) (instantiate ids i r) (λ m n. (refl, refl))
      (instantiate-IsGround ids i l) (instantiate-IsGround ids i r)
instantiate-IsGround ids i (vector_access l r) = access-IsGround ids l (instantiate ids i r)
instantiate-IsGround ids i (if_then_else a b c) =
    ternary-IsGround (is_subscripted a) (is_subscripted b) (is_subscripted c) (instantiate ids i a)
      (instantiate ids i b) (instantiate ids i c) (instantiate-IsGround ids i a)
      (instantiate-IsGround ids i b) (instantiate-IsGround ids i c)
instantiate-IsGround ids i (for_each l r) = instantiate-IsGround ids i r
instantiate-IsGround ids i (unique n) = tt
instantiate-IsGround ids i (bitslice n r l) =
    unary-IsGround _ (λ m. bitslice m r l) (λ y. ok (of_bool (not (to_bool y))))
      (instantiate ids i n) (λ m. (refl, refl)) (instantiate-IsGround ids i n)
