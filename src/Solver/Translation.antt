-- ===== src/Solver/Translation.antt =====
-- The translation of an expression by the visitor of crave/src/lib/metaSMTNodeVisitorImpl.hpp: when it
-- succeeds, what it leaves on the stack, and which variables have a term after it.
use Prim.Native.String.{String}
use crave.Prelude.{
  ℕ, ◌≡◌, refl, List, [], ◌∷◌, Bool, true, false, ◌&&◌, ◌||◌, Option, some, ◌==◌, arith,
  Option-cases, Bool-cases, inl, inr,
}
use crave.Prelude.Result.{Result, ok, err, runtime_error, ◌>>=◌}
use crave.Ir.{
  Constant, Node, placeholder, variable_expr, constant, vector_expr, unary, inside,
  extend_expression, binary, vector_access, if_then_else, for_each, unique, bitslice,
}
use crave.Ir.Support.{occurs}
use crave.Ir.Eval.Direct.{is_filled}
use crave.Solver.MetaSmt.{Term, Backend}
use crave.Solver.{
  Scope, Store, Visit, constant_term, fresh_term, evaluated, push_term, visit_variable, any_equal,
  eval_unary, eval_bin, eval_tern, finish_inside, visit,
}

-- No vector, access of one, `foreach` or `unique` stands in the expression.
unfoldable pub is_scalar : Node → Bool
is_scalar (placeholder id) = true
is_scalar (variable_expr id bs sg) = true
is_scalar (constant c) = true
is_scalar (vector_expr id bs sg) = false
is_scalar (unary op n) = is_scalar n
is_scalar (inside n cs) = is_scalar n
is_scalar (extend_expression n k) = is_scalar n
is_scalar (binary op l r) = is_scalar l && is_scalar r
is_scalar (vector_access l r) = false
is_scalar (if_then_else a b c) = is_scalar a && (is_scalar b && is_scalar c)
is_scalar (for_each l r) = false
is_scalar (unique n) = false
is_scalar (bitslice n r l) = is_scalar n

-- The call throws a `std::runtime_error`.
abbrev pub Throws {ℓ} : {A : Type ℓ} → Result A → Type ℓ
Throws r = (message : String) × (r ≡ err (runtime_error message))

-- A context after some calls of `evaluate`.
pub data Built (B : Backend) : B.Context → B.Context → Type 0 where
  unchanged : {c : B.Context} → Built B c c
  evaluation : {c d : B.Context} (t : Term (B.Expr)) → Built B c d → Built B c ((B.evaluate t d).1)

pub Built-trans : {B : Backend} {c d e : B.Context} → Built B c d → Built B d e → Built B c e
Built-trans p unchanged = p
Built-trans p (evaluation t q) = evaluation t (Built-trans p q)

module _ (B : Backend) where
  -- Every variable keeps the term that it had.
  abbrev pub Extends : (ℕ → Option (B.Expr)) → (ℕ → Option (B.Expr)) → Type 0
  Extends t u = (v : ℕ) (e : B.Expr) → t v ≡ some e → u v ≡ some e

  -- Each of the ids has a term.
  abbrev pub Covers : (ℕ → Bool) → (ℕ → Option (B.Expr)) → Type 0
  Covers ids u = (v : ℕ) → ids v ≡ true → (e : B.Expr) × (u v ≡ some e)

  -- The visit returns with one entry more on the stack.
  abbrev pub IsPushed : (ℕ → Bool) → Store B → Result (Store B) → Type 0
  IsPushed ids st r =
      (e : B.Expr × Bool) × (g : Scope B) × (r ≡ ok (record { scope = g; stack = e ∷ st.stack }))
      × Extends st.scope.terminals g.terminals
      × Covers ids g.terminals
      × Built B st.scope.context g.context

  -- What the visit of an expression does, which is scalar or not.
  unfoldable pub Translated : Bool → (ℕ → Bool) → Store B → Result (Store B) → Type 0
  Translated true ids st r = IsPushed ids st r
  Translated false ids st r = Throws r

  -- The end of a visit: one entry, and no variable.
  abbrev Pushes : (Store B → Store B) → Type 0
  Pushes f =
      (t : Store B)
      → (e : B.Expr × Bool) × (g : Scope B) × (f t ≡ record { scope = g; stack = e ∷ t.stack })
        × (g.terminals ≡ t.scope.terminals)
        × Built B t.scope.context g.context

  push_term-Pushes : (t : Term (B.Expr)) (sign : Bool) → Pushes (push_term B t sign)
  unfolding push_term evaluated
  push_term-Pushes t sign st = (_, _, refl, refl, evaluation t unchanged)

  any_equal-Built :
      (entry : B.Expr) (cs : List Constant) (e : B.Expr) (g : Scope B)
      → ((any_equal B entry cs e g).1.terminals ≡ g.terminals)
        × Built B g.context ((any_equal B entry cs e g).1.context)
  unfolding any_equal evaluated
  any_equal-Built entry [] e g = (refl, unchanged)
  any_equal-Built entry (c ∷ cs) e g =
      let (k, b) = any_equal-Built entry cs _ _ in
      (k, Built-trans (evaluation _ (evaluation _ unchanged)) b)

  finish_inside-Pushes :
      (cs : List Constant) (entry : B.Expr × Bool) → Pushes (finish_inside B cs entry)
  unfolding finish_inside evaluated
  finish_inside-Pushes cs entry st =
      let (k, b) = any_equal-Built entry.0 cs _ _ in
      (_, _, refl, k, Built-trans (evaluation _ unchanged) b)

  visit_variable-IsPushed :
      (id bs : ℕ) (sg : Bool) (st : Store B)
      → IsPushed (λ v. v == id) st (ok (visit_variable B id bs sg st))
  unfolding visit_variable evaluated
  visit_variable-IsPushed id bs sg st = elim (Option-cases (st.scope.terminals id)) [
    | inl n ↦
        rw (visit_variable, n)
          (
            _,
            _,
            refl,
            (λ v e h. ground arith),
            (λ v h. ((evaluated B (fresh_term bs sg) st.scope).0, ground arith)),
            evaluation _ unchanged,
          )
    | inr (e, s) ↦
        rw (visit_variable, s) (_, _, refl, (λ v f h. h), (λ v h. (e, ground arith)), unchanged)
  ]

  unary-Translated :
      (b : Bool) (ids : ℕ → Bool) (v : Visit B) (f : B.Expr × Bool → Store B → Store B)
      (st : Store B)
      → ((e : B.Expr × Bool) → Pushes (f e))
      → Translated b ids st (v st)
      → Translated b ids st (eval_unary B v st >>= λ (e, t). ok (f e t))
  unfolding Translated
  unary-Translated true ids v f st p (e, g, h, x, c, z) =
      let (e', g', h', k, z') = p e (record { scope = g; stack = st.stack }) in
      (e', g', rw h (rw h' refl), rw k x, rw k c, Built-trans z z')
  unary-Translated false ids v f st p (m, h) = (m, rw h refl)

  either-Covers :
      (ids more : ℕ → Bool) (t u : ℕ → Option (B.Expr))
      → Extends t u
      → Covers ids t
      → Covers more u
      → Covers (λ v. ids v || more v) u
  either-Covers ids more t u x c d v h = elim (Bool-cases (ids v)) [
    | inl i ↦ let (e, k) = c v i in (e, x v e k)
    | inr i ↦ d v (ground arith)
  ]

  binary-Translated :
      (b c : Bool) (ids more : ℕ → Bool) (l r : Visit B)
      (f : B.Expr × Bool → B.Expr × Bool → Store B → Store B) (st : Store B)
      → ((x y : B.Expr × Bool) → Pushes (f x y))
      → Translated b ids st (l st)
      → ((u : Store B) → Translated c more u (r u))
      → Translated
          (b && c)
          (λ v. ids v || more v)
          st
          (eval_bin B l r st >>= λ (x, y, t). ok (f x y t))
  unfolding Translated
  binary-Translated true true ids more l r f st p (x, g, h, xl, cl, bl) w =
      let (y, g2, h2, xr, cr, br) = w (record { scope = g; stack = x ∷ st.stack }) in
      let (e, g3, h3, k, bf) = p x y (record { scope = g2; stack = st.stack }) in
      (
        e,
        g3,
        rw h (rw h2 (rw h3 refl)),
        rw k (λ v z i. xr v z (xl v z i)),
        rw k (either-Covers ids more g.terminals g2.terminals xr cl cr),
        Built-trans bl (Built-trans br bf),
      )
  binary-Translated true false ids more l r f st p (x, g, h, xl, cl, bl) w =
      let (m, q) = w (record { scope = g; stack = x ∷ st.stack }) in (m, rw h (rw q refl))
  binary-Translated false c ids more l r f st p (m, h) w = (m, rw h refl)

  ternary-Translated :
      (b c d : Bool) (ids more most : ℕ → Bool) (l r s : Visit B)
      (f : B.Expr × Bool → B.Expr × Bool → B.Expr × Bool → Store B → Store B) (st : Store B)
      → ((x y z : B.Expr × Bool) → Pushes (f x y z))
      → Translated b ids st (l st)
      → ((u : Store B) → Translated c more u (r u))
      → ((u : Store B) → Translated d most u (s u))
      → Translated
          (b && (c && d))
          (λ v. ids v || (more v || most v))
          st
          (eval_tern B l r s st >>= λ (x, y, z, t). ok (f x y z t))
  unfolding Translated
  ternary-Translated true true true ids more most l r s f st p (x, g, h, xl, cl, bl) w w' =
      let (y, g2, h2, xr, cr, br) = w (record { scope = g; stack = x ∷ st.stack }) in
      let (z, g3, h3, xs, cs, bs) = w' (record { scope = g2; stack = y ∷ x ∷ st.stack }) in
      let (e, g4, h4, k, bf) = p x y z (record { scope = g3; stack = st.stack }) in
      let rest = either-Covers more most g2.terminals g3.terminals xs cr cs in
      (
        e,
        g4,
        rw h (rw h2 (rw h3 (rw h4 refl))),
        rw k (λ v a i. xs v a (xr v a (xl v a i))),
        rw k (
            either-Covers ids (λ v. more v || most v) g.terminals g3.terminals
              (λ v a i. xs v a (xr v a i)) cl rest),
        Built-trans bl (Built-trans br (Built-trans bs bf)),
      )
  ternary-Translated true true false ids more most l r s f st p (x, g, h, xl, cl, bl) w w' =
      let (y, g2, h2, xr, cr, br) = w (record { scope = g; stack = x ∷ st.stack }) in
      let (m, q) = w' (record { scope = g2; stack = y ∷ x ∷ st.stack }) in
      (m, rw h (rw h2 (rw q refl)))
  ternary-Translated true false d ids more most l r s f st p (x, g, h, xl, cl, bl) w w' =
      let (m, q) = w (record { scope = g; stack = x ∷ st.stack }) in (m, rw h (rw q refl))
  ternary-Translated false c d ids more most l r s f st p (m, h) w w' = (m, rw h refl)

  pub visit-Translated :
      (n : Node) (st : Store B)
      → is_filled n ≡ true
      → Translated (is_scalar n) (λ v. occurs v n) st (visit B n st)
  unfolding Translated visit is_filled is_scalar occurs
  visit-Translated (placeholder id) st h = cc
  visit-Translated (variable_expr id bs sg) st h = visit_variable-IsPushed id bs sg st
  visit-Translated (constant c) st h =
      let (e, g, q, k, b) = push_term-Pushes (constant_term c) c.sign st in
      (e, g, rw q refl, rw k (λ v a i. i), (λ v i. cc), b)
  visit-Translated (vector_expr id bs sg) st h = (_, refl)
  visit-Translated (unary op n) st h =
      unary-Translated (is_scalar n) (λ v. occurs v n) (visit B n) _ st (λ e. push_term-Pushes _ _)
        (visit-Translated n st h)
  visit-Translated (inside n cs) st h =
      unary-Translated (is_scalar n) (λ v. occurs v n) (visit B n) _ st (finish_inside-Pushes cs)
        (visit-Translated n st h)
  visit-Translated (extend_expression n k) st h =
      unary-Translated (is_scalar n) (λ v. occurs v n) (visit B n) _ st (λ e. push_term-Pushes _ _)
        (visit-Translated n st h)
  visit-Translated (binary op l r) st h =
      binary-Translated (is_scalar l) (is_scalar r) (λ v. occurs v l) (λ v. occurs v r) (visit B l)
        (visit B r) _ st (λ x y. push_term-Pushes _ _) (visit-Translated l st (ground arith))
        (λ u. visit-Translated r u (ground arith))
  visit-Translated (vector_access l r) st h = (_, refl)
  visit-Translated (if_then_else a b c) st h =
      ternary-Translated (is_scalar a) (is_scalar b) (is_scalar c) (λ v. occurs v a)
        (λ v. occurs v b) (λ v. occurs v c) (visit B a) (visit B b) (visit B c) _ st
        (λ x y z. push_term-Pushes _ _) (visit-Translated a st (ground arith))
        (λ u. visit-Translated b u (ground arith)) (λ u. visit-Translated c u (ground arith))
  visit-Translated (for_each l r) st h = (_, refl)
  visit-Translated (unique n) st h = (_, refl)
  visit-Translated (bitslice n r l) st h =
      unary-Translated (is_scalar n) (λ v. occurs v n) (visit B n) _ st (λ e. push_term-Pushes _ _)
        (visit-Translated n st h)
