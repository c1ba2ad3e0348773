-- ===== src/Ir/Replace/Reference.antt =====
-- The instance of an expression at an index as a recursion over the tree, without the state of the
-- visitor of crave/src/lib/ReplaceVisitor.cpp.
use crave.Prelude.{
  ℕ, ◌≡◌, List, Bool, true, false, not, Option, none, some, length, get_elem?, if◌then◌else◌,
}
use crave.Prelude.Result.{Result, ok, err, runtime_error, ◌>>=◌}
use crave.Prelude.Int.{ℤ, pos, of_unsigned, of_bool, to_bool, pos_part}
use crave.Ir.{
  Node, placeholder, variable_expr, constant, vector_expr, unary, inside, extend_expression, binary,
  vector_access, if_then_else, for_each, unique, bitslice,
}
use crave.Ir.FixWidth.{placeholder_bitsize}
use crave.Ir.Replace.{is_within}
use crave.Ir.Replace.Subscript.{unary_subscript, binary_subscript}

-- Both trees, if there are both.
abbrev pub both : (Node → Node → Node) → Option Node → Option Node → Option Node
both f a b = elim a [ none ↦ none | some x ↦ elim b [ none ↦ none | some y ↦ some (f x y) ] ]

-- The three trees of a choice.
abbrev pub all_three : Option Node → Option Node → Option Node → Option Node
all_three p q r = elim p [ none ↦ none | some k ↦ both (if_then_else k) q r ]

abbrev pub apply : (Node → Node) → Option Node → Option Node
apply f a = elim a [ none ↦ none | some x ↦ some (f x) ]

abbrev pub is_some : Option Node → Bool
is_some a = elim a [ none ↦ false | some x ↦ true ]

-- The element of a vector at a subscript, or nothing where the subscript is out of range.
unfoldable pub chosen : List ℕ → ℤ → Node → Option Node
chosen ids x (vector_expr v bs sg) =
    if is_within x (length ids)
    then elim (get_elem? ids (pos_part x)) [ none ↦ none | some id ↦ some (variable_expr id bs sg) ]
    else none
chosen ids x _ = none

-- The constant of a placeholder.
abbrev pub index_node : ℕ → Node
index_node i = constant (record { value = i; bitsize = placeholder_bitsize; sign = false })

-- The instance at the index `i`, for elements with the ids `ids`, and its subscript. There is none
-- where a subscript is out of range.
unfoldable pub instantiate : List ℕ → ℕ → Node → Result (Option Node × ℤ)
instantiate ids i (placeholder id) = ok (some (index_node i), of_unsigned i)
instantiate ids i (variable_expr id bs sg) = ok (some (variable_expr id bs sg), pos 0)
instantiate ids i (constant c) = ok (some (constant c), of_unsigned (c.value))
instantiate ids i (vector_expr id bs sg) = ok (some (vector_expr id bs sg), pos 0)
instantiate ids i (unary op n) = do
  (a, x) ← instantiate ids i n
  y ← unary_subscript op x
  ok (apply (unary op) a, y)
instantiate ids i (inside n cs) = do
  (a, x) ← instantiate ids i n
  ok (apply (λ m. inside m cs) a, x)
instantiate ids i (extend_expression n k) = do
  (a, x) ← instantiate ids i n
  ok (apply (λ m. extend_expression m k) a, x)
instantiate ids i (binary op l r) = do
  (a, x) ← instantiate ids i l
  (b, y) ← instantiate ids i r
  z ← binary_subscript op x y
  ok (both (binary op) a b, z)
instantiate ids i (vector_access l r) = do
  (b, y) ← instantiate ids i r
  ok (both (λ m e. e) b (chosen ids y l), pos 0)
instantiate ids i (if_then_else a b c) = do
  (p, x) ← instantiate ids i a
  (q, y) ← instantiate ids i b
  (r, z) ← instantiate ids i c
  ok (all_three p q r, if to_bool x then y else z)
instantiate ids i (for_each l r) = instantiate ids i r
instantiate ids i (unique n) = err (runtime_error "Unique is not allowed in ReplaceVisitor.")
instantiate ids i (bitslice n r l) = do
  (a, x) ← instantiate ids i n
  ok (apply (λ m. bitslice m r l) a, of_bool (not (to_bool x)))

-- Each id stands for one terminal, and what is accessed is a vector.
abbrev pub IsTyped : (ℕ → Option Node) → Node → Type 0
IsTyped σ (placeholder id) = σ id ≡ some (placeholder id)
IsTyped σ (variable_expr id bs sg) = σ id ≡ some (variable_expr id bs sg)
IsTyped σ (constant c) = Unit
IsTyped σ (vector_expr id bs sg) = σ id ≡ some (vector_expr id bs sg)
IsTyped σ (unary op n) = IsTyped σ n
IsTyped σ (inside n cs) = IsTyped σ n
IsTyped σ (extend_expression n k) = IsTyped σ n
IsTyped σ (binary op l r) = IsTyped σ l × IsTyped σ r
IsTyped σ (vector_access l r) =
    (v : ℕ) × (bs : ℕ) × (sg : Bool) × (l ≡ vector_expr v bs sg)
    × (σ v ≡ some (vector_expr v bs sg))
    × IsTyped σ r
IsTyped σ (if_then_else a b c) = IsTyped σ a × IsTyped σ b × IsTyped σ c
IsTyped σ (for_each l r) = IsTyped σ r
IsTyped σ (unique n) = Unit
IsTyped σ (bitslice n r l) = IsTyped σ n
