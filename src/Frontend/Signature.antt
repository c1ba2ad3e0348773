-- ===== src/Frontend/Signature.antt =====
-- What the ids of a program stand for, and the state of a context of crave/src/crave/ir/Context.hpp that
-- agrees with it.
use crave.Prelude.{Bool, ℕ, ◌≤◌, ◌≡◌, refl, Option, none, some, arith, Option-cases, inl, inr}
use crave.Ir.{
  Node, placeholder, variable_expr, constant, vector_expr, unary, inside, extend_expression, binary,
  vector_access, if_then_else, for_each, unique, bitslice,
}
use crave.Ir.Replace.Reference.{IsTyped}
use crave.Frontend.{
  Traits, Expr, target, vector_term, placeholder_term, stored, read_reference, value, bool_value,
  unary_expr, binary_expr, if_then, if_then_else_expr, inside_expr, dist_expr, foreach_expr,
  unique_expr, subscript, bitslice_expr, Context,
}

-- Each id in an expression stands for what `σ` has under it, and only vectors are subscripted.
abbrev pub IsNamed : (ℕ → Option Node) → Node → Type 0
IsNamed σ (placeholder id) = σ id ≡ some (placeholder id)
IsNamed σ (variable_expr id bs sg) = σ id ≡ some (variable_expr id bs sg)
IsNamed σ (constant c) = Unit
IsNamed σ (vector_expr id bs sg) = σ id ≡ some (vector_expr id bs sg)
IsNamed σ (unary op n) = IsNamed σ n
IsNamed σ (inside n cs) = IsNamed σ n
IsNamed σ (extend_expression n k) = IsNamed σ n
IsNamed σ (binary op l r) = IsNamed σ l × IsNamed σ r
IsNamed σ (vector_access l r) =
    (v : ℕ) × (bs : ℕ) × (sg : Bool) × (l ≡ vector_expr v bs sg)
    × (σ v ≡ some (vector_expr v bs sg))
    × IsNamed σ r
IsNamed σ (if_then_else a b c) = IsNamed σ a × IsNamed σ b × IsNamed σ c
IsNamed σ (for_each l r) = IsNamed σ l × IsNamed σ r
IsNamed σ (unique n) = IsNamed σ n
IsNamed σ (bitslice n r l) = IsNamed σ n

-- Then it is one that the replacement of vector elements takes.
pub IsNamed-IsTyped : (σ : ℕ → Option Node) (n : Node) → IsNamed σ n → IsTyped σ n
IsNamed-IsTyped σ (placeholder id) h = h
IsNamed-IsTyped σ (variable_expr id bs sg) h = h
IsNamed-IsTyped σ (constant c) h = tt
IsNamed-IsTyped σ (vector_expr id bs sg) h = h
IsNamed-IsTyped σ (unary op n) h = IsNamed-IsTyped σ n h
IsNamed-IsTyped σ (inside n cs) h = IsNamed-IsTyped σ n h
IsNamed-IsTyped σ (extend_expression n k) h = IsNamed-IsTyped σ n h
IsNamed-IsTyped σ (binary op l r) (h, k) = (IsNamed-IsTyped σ l h, IsNamed-IsTyped σ r k)
IsNamed-IsTyped σ (vector_access l r) (v, bs, sg, e, t, k) =
    (v, bs, sg, e, t, IsNamed-IsTyped σ r k)
IsNamed-IsTyped σ (if_then_else a b c) (h, k, l) =
    (IsNamed-IsTyped σ a h, IsNamed-IsTyped σ b k, IsNamed-IsTyped σ c l)
IsNamed-IsTyped σ (for_each l r) (h, k) = IsNamed-IsTyped σ r k
IsNamed-IsTyped σ (unique n) h = tt
IsNamed-IsTyped σ (bitslice n r l) h = IsNamed-IsTyped σ n h

-- What each id of the program's objects stands for: an object has its id from `new_var_id`.
abbrev pub Objects : Type 0
Objects = ℕ → Option Node

-- The nodes that stand for an object, but for variables.
abbrev pub other : Option Node → Option Node
other (some (variable_expr id bs sg)) = none
other o = o

other-some : (o : Option Node) (n : Node) → other o ≡ some n → o ≡ some n
other-some none n h = h
other-some (some (variable_expr id bs sg)) n h = cc
other-some (some (placeholder id)) n h = h
other-some (some (constant c)) n h = h
other-some (some (vector_expr id bs sg)) n h = h
other-some (some (unary op m)) n h = h
other-some (some (inside m cs)) n h = h
other-some (some (extend_expression m k)) n h = h
other-some (some (binary op l r)) n h = h
other-some (some (vector_access l r)) n h = h
other-some (some (if_then_else x y z)) n h = h
other-some (some (for_each l r)) n h = h
other-some (some (unique m)) n h = h
other-some (some (bitslice m r l)) n h = h

-- Each entry of a map stands for its id, and was handed out.
abbrev pub IsKept : Objects → ℕ → (ℕ → Option Node) → Type 0
IsKept τ last m =
    (id : ℕ) (n : Node) → m id ≡ some n → (id ≤ last) × ((k : Node) → τ id ≡ some k → n ≡ k)

module _ {A : Type 0} where
  -- What each id stands for in a context: the variable of `variables_`, or an object that is none.
  unfoldable pub known : Objects → Context A → ℕ → Option Node
  known τ c id = elim (c.variables id) [ some n ↦ some n | none ↦ other (τ id) ]

  -- The state of a context that agrees with the program's objects.
  abbrev pub IsSound : Objects → Context A → Type 0
  IsSound τ c =
      ((id : ℕ) (n : Node) → τ id ≡ some n → id ≤ c.last_id)
      × IsKept τ c.last_id c.variables
      × ((id : ℕ) (n : Node) → c.vector_variables id ≡ some n → τ id ≡ some n)

  -- A later state: nothing that the context knows is lost.
  abbrev pub Extends : Context A → Context A → Type 0
  Extends c d =
      (c.last_id ≤ d.last_id)
      × ((id : ℕ) (n : Node) → c.variables id ≡ some n → d.variables id ≡ some n)

  pub Extends-refl : (c : Context A) → Extends c c
  Extends-refl c = (omega arith, λ id n h. h)

  pub Extends-trans : (c d e : Context A) → Extends c d → Extends d e → Extends c e
  Extends-trans c d e (l, f) (m, g) = (omega arith, λ id n h. g id n (f id n h))

  -- A later context knows at least as much.
  pub known-Extends :
      (τ : Objects) (c d : Context A)
      → IsSound τ d
      → Extends c d
      → (id : ℕ) (n : Node) → known τ c id ≡ some n
      → known τ d id ≡ some n
  unfolding known
  known-Extends τ c d (_, k, _) (l, f) id n h = elim (Option-cases (c.variables id)) [
    | inr (m, e) ↦
        let q : d.variables id ≡ some m = f id m e in
        let same : some m ≡ some n = rw (known, e) at h in rw (known, q) same
    | inl e ↦
        let o : other (τ id) ≡ some n = rw (known, e) at h in
        elim (Option-cases (d.variables id)) [
          | inl z ↦ rw (known, z) o
          | inr (m, z) ↦
              let same : m ≡ n = (k id m z).1 n (other-some (τ id) n o) in
              rw (known, z) (rw same refl)
        ]
  ]

  -- The terms of the program agree with its objects: a target and a reference have the variable of
  -- their id, what is subscripted is a vector, and a stored expression is known in the context.
  abbrev pub IsWritten : Objects → Context A → Expr A → Type 0
  IsWritten τ c (target x) = τ x.id ≡ some (variable_expr x.id (x.traits.width) (x.traits.sign))
  IsWritten τ c (vector_term id t) = τ id ≡ some (vector_expr id (t.width) (t.sign))
  IsWritten τ c (placeholder_term id) = τ id ≡ some (placeholder id)
  IsWritten τ c (stored n) = IsNamed (known τ c) n
  IsWritten τ c (read_reference id t a) = τ id ≡ some (variable_expr id (t.width) (t.sign))
  IsWritten τ c (value t i) = Unit
  IsWritten τ c (bool_value b) = Unit
  IsWritten τ c (unary_expr op e) = IsWritten τ c e
  IsWritten τ c (binary_expr op l r) = IsWritten τ c l × IsWritten τ c r
  IsWritten τ c (if_then x y) = IsWritten τ c x × IsWritten τ c y
  IsWritten τ c (if_then_else_expr x y z) = IsWritten τ c x × IsWritten τ c y × IsWritten τ c z
  IsWritten τ c (inside_expr x is) =
      τ x.id ≡ some (variable_expr x.id (x.traits.width) (x.traits.sign))
  IsWritten τ c (dist_expr x t spans) =
      τ x.id ≡ some (variable_expr x.id (x.traits.width) (x.traits.sign))
  IsWritten τ c (foreach_expr l r) = IsWritten τ c l × IsWritten τ c r
  IsWritten τ c (unique_expr e) = IsWritten τ c e
  IsWritten τ c (subscript l r) =
      (v : ℕ) × (t : Traits) × (l ≡ vector_term v t)
      × (τ v ≡ some (vector_expr v (t.width) (t.sign)))
      × IsWritten τ c r
  IsWritten τ c (bitslice_expr r l x) =
      τ x.id ≡ some (variable_expr x.id (x.traits.width) (x.traits.sign))
