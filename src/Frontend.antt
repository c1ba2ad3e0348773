-- ===== src/Frontend.antt =====
-- crave/src/crave/ir/Context.hpp: how an expression that the program writes, which C++ overloading builds
-- with the types of its parts, becomes a tree of nodes, and what the context notes of its variables.
pub mod Signature
pub mod Built
pub mod Typed
pub mod Literal
pub mod Assign
use crave.Prelude.{
  ℕ, zero, suc, ◌-◌, ◌/◌, ◌%◌, ◌^◌, List, [], ◌∷◌, ◌++◌, map, Bool, true, false, ◌||◌, Option, none,
  some, ◌==◌, ltb, leb, if◌then◌else◌,
}
use crave.Prelude.Result.{Result, ok, err, runtime_error, throw_if, ◌>>=◌, ◌>>◌}
use crave.Prelude.Int.{ℤ, pos, negsuc}
use crave.Prelude.IntSet.{IntSet, insert}
use crave.Ir.{
  Constant, bool_constant, UnaryOperator, BinaryOperator, equal_opr, less_equal_opr,
  logical_and_opr, logical_or_opr, Node, placeholder, variable_expr, constant, vector_expr, unary,
  inside, binary, vector_access, if_then_else, for_each, unique, bitslice,
}

-- `bitsize_traits<T>::value` and `is_signed<T>::value` of a type
pub record Traits : Type 0 where
  pub width : ℕ
  pub sign : Bool

-- `weighted_range<T>` of any type
pub record Span : Type 0 where
  pub left : ℤ
  pub right : ℤ
  pub weight : ℕ

-- a `Variable`, or a `WriteReference` with the reference to the program's memory
pub record Target (A : Type 0) : Type 0 where
  pub id : ℕ
  pub traits : Traits
  pub written : Option A

-- What the program writes, with references `A` to its memory.
pub data Expr (A : Type 0) : Type 0 where
  target : Target A → Expr A
  vector_term : ℕ → Traits → Expr A
  placeholder_term : ℕ → Expr A
  stored : Node → Expr A
  read_reference : ℕ → Traits → A → Expr A
  value : Traits → ℤ → Expr A
  bool_value : Bool → Expr A
  unary_expr : UnaryOperator → Expr A → Expr A
  binary_expr : BinaryOperator → Expr A → Expr A → Expr A
  if_then : Expr A → Expr A → Expr A
  if_then_else_expr : Expr A → Expr A → Expr A → Expr A
  inside_expr : Target A → List ℤ → Expr A
  dist_expr : Target A → Traits → List Span → Expr A
  foreach_expr : Expr A → Expr A → Expr A
  unique_expr : Expr A → Expr A
  subscript : Expr A → Expr A → Expr A
  bitslice_expr : ℕ → ℕ → Target A → Expr A

-- the fields of `Context`, which are those of the container of variables, and the counter of
-- `new_var_id`
pub record Context (A : Type 0) : Type 0 where
  pub variables : ℕ → Option Node
  pub vector_variables : ℕ → Option Node
  pub read_references : List (ℕ × (A × Node))
  pub write_references : List (ℕ × A)
  pub dist_references : List (ℕ × (List Span × Node))
  pub dist_ref_to_var_map : ℕ → Option ℕ
  pub last_id : ℕ

-- An entry of a map is set.
abbrev pub put : {V : Type 0} → ℕ → V → (ℕ → Option V) → ℕ → Option V
put k v m = λ j. if k == j then some v else m j

-- the conversion to `uint64_t`
unfoldable pub to_uint64 : ℤ → ℕ
to_uint64 (pos n) = n % 2 ^ 64
to_uint64 (negsuc n) = 2 ^ 64 - 1 - n % 2 ^ 64

-- `Constant(i, width, sign)`
abbrev pub constant_of : Traits → ℤ → Constant
constant_of t i = record { value = to_uint64 i; bitsize = t.width; sign = t.sign }

-- the loop of `new_value`, from `j` on: the first width that leaves nothing
unfoldable pub narrow : ℕ → ℕ → ℕ → Option ℕ
narrow zero j n = none
narrow (suc k) j n = let rest = narrow k (suc j) n in if n / 2 ^ j == 0 then some j else rest

-- `new_value(i)`
unfoldable pub new_value : Traits → ℤ → Constant
new_value t (negsuc n) = constant_of t (negsuc n)
new_value t (pos n) = elim (narrow (t.width - 1) 1 n) [
  | none ↦ constant_of t (pos n)
  | some j ↦ record { value = to_uint64 (pos n); bitsize = j; sign = false }
]

-- the set of the constants, in the order of their values
unfoldable pub constants_of : Traits → List ℤ → IntSet → List Constant
constants_of t [] vs = map (λ v. record { value = v; bitsize = t.width; sign = t.sign }) vs
constants_of t (i ∷ is) vs = constants_of t is (insert (to_uint64 i) vs)

-- `weighted_value(i, 1)`; two of them never overlap
abbrev pub point : ℤ → Span
point i = record { left = i; right = i; weight = 1 }

-- a range of a distribution as a condition on the variable
unfoldable pub in_range : Traits → Node → Span → Node
in_range t tmp r =
    binary logical_and_opr (binary less_equal_opr (constant (constant_of t r.left)) tmp)
      (binary less_equal_opr tmp (constant (constant_of t r.right)))

-- the loop over the ranges, after the first one
unfoldable pub in_ranges : Traits → Node → Node → List Span → Node
in_ranges t tmp so_far [] = so_far
in_ranges t tmp so_far (r ∷ rs) =
    in_ranges t tmp (binary logical_or_opr so_far (in_range t tmp r)) rs

-- the condition of a distribution
unfoldable pub dist_condition : Traits → Node → Node → List Span → Node
dist_condition t tmp equal [] = equal
dist_condition t tmp equal (r ∷ rs) =
    binary logical_and_opr equal (in_ranges t tmp (in_range t tmp r) rs)

abbrev pub Visit : Type 0 → Type 0
Visit A = Context A → Result (Node × Context A)

module _ {A : Type 0} where
  -- `new_var(id, width, sign)`
  unfoldable pub new_var : ℕ → Traits → Context A → Node × Context A
  new_var id t c =
      let v = variable_expr id (t.width) (t.sign) in
      (v, record c { variables = put id v c.variables })

  -- a terminal `var_tag` or `write_ref_tag`
  unfoldable pub target_node : Target A → Context A → Node × Context A
  target_node x c = elim (c.variables x.id) [
    | some n ↦ (n, c)
    | none ↦
        let (v, d) = new_var x.id x.traits c in
        elim (x.written) [
          | none ↦ (v, d)
          | some a ↦ (v, record d { write_references = d.write_references ++ (x.id, a) ∷ [] })
        ]
  ]

  -- a terminal `vector_tag`
  unfoldable pub vector_node : ℕ → Traits → Context A → Node × Context A
  vector_node id t c = elim (c.vector_variables id) [
    | some n ↦ (n, c)
    | none ↦
        let v = vector_expr id (t.width) (t.sign) in
        (v, record c { vector_variables = put id v c.vector_variables })
  ]

  -- a terminal `read_ref_tag`
  unfoldable pub read_node : ℕ → Traits → A → Context A → Node × Context A
  read_node id t a c = elim (c.variables id) [
    | some n ↦ (n, c)
    | none ↦
        let (v, d) = new_var id t c in
        (v, record d { read_references = d.read_references ++ (id, (a, v)) ∷ [] })
  ]

  -- what `inside` and `dist` begin with: a new variable, and the distribution that it follows
  unfoldable pub dist_var : Traits → List Span → Context A → ℕ × Node × Context A
  dist_var t spans c =
      let id = suc (c.last_id) in
      let (v, d) = new_var id t (record c { last_id = id }) in
      (id, v, record d { dist_references = d.dist_references ++ (id, (spans, v)) ∷ [] })

  -- and what they end with: the equality of the variable with the new one
  unfoldable pub dist_target : Target A → ℕ → Node → Context A → Node × Context A
  dist_target x id tmp c =
      let (v, d) = target_node x c in
      (binary equal_opr v tmp, record d { dist_ref_to_var_map = put id x.id d.dist_ref_to_var_map })

  unfoldable pub inside_node : Target A → List ℤ → Context A → Node × Context A
  inside_node x is c =
      let (id, tmp, d) = dist_var x.traits (map point is) c in
      let (equal, e) = dist_target x id tmp d in
      (binary logical_and_opr equal (inside tmp (constants_of x.traits is [])), e)

  unfoldable pub dist_node : Target A → Traits → List Span → Context A → Node × Context A
  dist_node x t spans c =
      let (id, tmp, d) = dist_var t spans c in
      let (equal, e) = dist_target x id tmp d in (dist_condition t tmp equal spans, e)

  unfoldable pub bitslice_node : ℕ → ℕ → Target A → Visit A
  bitslice_node r l x c = do
    throw_if (ltb r l || leb (x.traits.width) r) "Invalid range of bitslice"
    let (n, d) = target_node x c
    ok (bitslice n r l, d)

  -- The arguments of a constructor, in an order that C++ leaves to the compiler: from the right if
  -- `reversed`, else from the left.
  abbrev pub both_of : Bool → Visit A → Visit A → Context A → Result (Node × Node × Context A)
  both_of true l r c = do (b, d) ← r c; (a, e) ← l d; ok (a, b, e)
  both_of false l r c = do (a, d) ← l c; (b, e) ← r d; ok (a, b, e)

  abbrev pub three_of :
      Bool → Visit A → Visit A → Visit A → Context A → Result (Node × Node × Node × Context A)
  three_of true x y z c = do (r, d) ← z c; (q, e) ← y d; (p, f) ← x e; ok (p, q, r, f)
  three_of false x y z c = do (p, d) ← x c; (q, e) ← y d; (r, f) ← z e; ok (p, q, r, f)

  -- `boost::proto::eval(e, ctx)`
  unfoldable pub to_node : Bool → Expr A → Visit A
  to_node o (target x) c = ok (target_node x c)
  to_node o (vector_term id t) c = ok (vector_node id t c)
  to_node o (placeholder_term id) c = ok (placeholder id, c)
  to_node o (stored n) c = ok (n, c)
  to_node o (read_reference id t a) c = ok (read_node id t a c)
  to_node o (value t i) c = ok (constant (new_value t i), c)
  to_node o (bool_value b) c = ok (constant (bool_constant b), c)
  to_node o (unary_expr op e) c = do (n, d) ← to_node o e c; ok (unary op n, d)
  to_node o (binary_expr op l r) c = do
    (a, b, d) ← both_of o (to_node o l) (to_node o r) c
    ok (binary op a b, d)
  to_node o (if_then x y) c = do
    (a, b, d) ← both_of o (to_node o x) (to_node o y) c
    ok (if_then_else a b (constant (bool_constant true)), d)
  to_node o (if_then_else_expr x y z) c = do
    (p, q, r, d) ← three_of o (to_node o x) (to_node o y) (to_node o z) c
    ok (if_then_else p q r, d)
  to_node o (inside_expr x is) c = ok (inside_node x is c)
  to_node o (dist_expr x t spans) c = ok (dist_node x t spans c)
  to_node o (foreach_expr l r) c = do
    (a, b, d) ← both_of o (to_node o l) (to_node o r) c
    ok (for_each a b, d)
  to_node o (unique_expr e) c = do (n, d) ← to_node o e c; ok (unique n, d)
  to_node o (subscript l r) c = do
    (a, b, d) ← both_of o (to_node o l) (to_node o r) c
    ok (vector_access a b, d)
  to_node o (bitslice_expr r l x) c = bitslice_node r l x c
