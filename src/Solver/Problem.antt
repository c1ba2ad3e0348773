-- ===== src/Solver/Problem.antt =====
-- The calls of crave/src/lib/metaSMTNodeVisitorImpl.hpp that pose a problem to the solver, solve it and
-- read its solution.
use Prim.Native.String.{String}
use crave.Prelude.{
  ℕ, suc, zero, ◌-◌, List, [], ◌∷◌, ◌++◌, map, Bool, true, false, Option, none, some, length,
  get_elem?, set, if◌then◌else◌, ◌≡◌, refl, ◌⊎◌, inl, inr, Bool-cases,
}
use crave.Prelude.Result.{Result, ok, err, undefined, assertion, ◌>>=◌}
use crave.Prelude.Random.{Random}
use crave.Ir.{Node}
use crave.Solver.MetaSmt.{
  Term, result, true_term, new_variable, implies, equal, Backend, IsIncremental,
}
use crave.Solver.{Store, evaluated, visit, eval_unary}

-- the fields of `metaSMTVisitorImpl`
pub record Problem (B : Backend) : Type 0 where
  pub store : Store B
  pub softs : List (B.Expr)
  pub assumptions : List (B.Expr)
  pub suggestions : List (B.Expr)

-- `preds::equal(e, preds::True)`
abbrev pub is_true : {E : Type 0} → E → Term E
is_true e = equal (result e) true_term

-- `pop_back()`
unfoldable pub pop_back {ℓ} : {A : Type ℓ} → List A → List A
pop_back [] = []
pop_back (x ∷ []) = []
pop_back (x ∷ y ∷ ys) = x ∷ pop_back (y ∷ ys)

-- `std::swap(xs[select], xs.back()); xs.pop_back();`
unfoldable pub drop_selected {ℓ} : {A : Type ℓ} → ℕ → List A → Result (List A)
unfolding pop_back
drop_selected select xs = elim (get_elem? xs select) [
  | none ↦ err undefined
  | some a ↦ elim (get_elem? xs (length xs - 1)) [
    | none ↦ err undefined
    | some b ↦ ok (pop_back (set (set xs select b) (length xs - 1) a))
  ]
]

module _ (B : Backend) where
  -- a new object
  abbrev pub new_problem : Problem B
  new_problem = record {
    store = record {
      scope = record { context = B.new_context; terminals = λ v. none };
      stack = [];
    };
    softs = [];
    assumptions = [];
    suggestions = [];
  }

  abbrev pub context_of : Problem B → B.Context
  context_of p = p.store.scope.context

  abbrev pub with_context : B.Context → Problem B → Problem B
  with_context c p = record p {
    store = record (p.store) { scope = record (p.store.scope) { context = c } };
  }

  -- The calls on the backend up to here have returned, unless one of its `assert`s has failed: these
  -- calls have no other effect, so their `assert`s are looked at together.
  unfoldable pub returned : Problem B → Result (Problem B)
  returned p = if B.has_failed (context_of p) then err assertion else ok p

  -- `expr.visit(this)` and `pop(entry)`
  unfoldable pub translate : Node → Problem B → Result (B.Expr × Problem B)
  translate n p = do
    (e, st) ← eval_unary B (visit B n) p.store
    q ← returned (record p { store = st })
    ok (e.0, q)

  -- `makeAssertion(expr)`
  unfoldable pub make_assertion : Node → Problem B → Result (Problem B)
  make_assertion n p = do
    (e, q) ← translate n p
    returned (with_context (B.assertion (is_true e) (context_of q)) q)

  -- `makeSoftAssertion(expr)`
  unfoldable pub make_soft_assertion : Node → Problem B → Result (Problem B)
  make_soft_assertion n p = do (e, q) ← translate n p; ok (record q { softs = q.softs ++ e ∷ [] })

  -- `makeSuggestion(expr)`
  unfoldable pub make_suggestion : Node → Problem B → Result (Problem B)
  make_suggestion n p = do
    (e, q) ← translate n p
    ok (record q { suggestions = q.suggestions ++ e ∷ [] })

  -- `makeAssumption(expr)`
  unfoldable pub make_assumption : Node → Problem B → Result (Problem B)
  make_assumption n p = do
    (e, q) ← translate n p
    let (f, g) = evaluated B (is_true e) q.store.scope
    returned
        (record q { store = record (q.store) { scope = g }; assumptions = q.assumptions ++ f ∷ [] })

  -- the loop of `analyseSofts`, from the index `i` on: the indices that it collects
  unfoldable pub analyse_from : ℕ → List (B.Expr) → B.Context → List ℕ × B.Context
  analyse_from i [] c = ([], c)
  analyse_from i (s ∷ ss) c =
      let (b, d) = B.solve (B.assumption (is_true s) c) in
      elim b [
        | true ↦ analyse_from (suc i) ss (B.assertion (is_true s) d)
        | false ↦ let (is, e) = analyse_from (suc i) ss d in (i ∷ is, e)
      ]

  -- `analyseSofts()`
  unfoldable pub analyse_softs : Problem B → List ℕ × Problem B
  analyse_softs p =
      let (is, c) = analyse_from 0 p.softs (context_of p) in
      (is, record (with_context c p) { softs = [] })

  -- the loop of `analyseContradiction` over the map, in the order of its keys
  unfoldable pub guard_all : List (ℕ × Node) → Problem B → Result (List (ℕ × B.Expr) × Problem B)
  guard_all [] p = ok ([], p)
  guard_all ((k, n) ∷ s) p = do
    (e, q) ← translate n p
    let (v, g) = evaluated B new_variable q.store.scope
    let c = B.assertion (implies (result v) (result e)) g.context
    let st = record (q.store) { scope = record g { context = c } }
    q1 ← returned (record q { store = st })
    (vs, r) ← guard_all s q1
    ok ((k, v) ∷ vs, r)

  -- `analyseContradiction(s)`
  unfoldable pub analyse_contradiction :
      List (ℕ × Node) → Problem B → Result (List (List ℕ) × Problem B)
  analyse_contradiction s p = do
    (vs, q) ← guard_all s p
    let (t, g) = evaluated B true_term q.store.scope
    let (rs, c) = B.analyze_conflicts vs g.context
    ok (rs, with_context c q)

  -- a loop that passes each term to `metaSMT::assumption`
  unfoldable pub assume_all : List (Term (B.Expr)) → B.Context → B.Context
  assume_all [] c = c
  assume_all (t ∷ ts) c = assume_all ts (B.assumption t c)

  -- what one round of `solve(ignoreSofts)` assumes
  unfoldable pub round : Bool → Problem B → List (Term (B.Expr))
  round ignore_softs p =
      map result p.assumptions
      ++ (map result p.suggestions ++ (if ignore_softs then [] else map is_true p.softs))

  module _ (R : Random (B.Expr)) where
    -- the end of a failed round: no suggestion is left, or one of them is dropped
    unfoldable pub drop_one : List (B.Expr) → R.Rng → Option (Result (List (B.Expr)) × R.Rng)
    drop_one [] r = none
    drop_one (x ∷ xs) r =
        let (select, s) = R.random_unsigned (length (x ∷ xs)) r in
        some (drop_selected select (x ∷ xs), s)

    -- The loop of `solve(ignoreSofts)`. Each round but the last drops a suggestion; running out of
    -- fuel is an error of the model.
    unfoldable pub solve_loop : ℕ → Bool → Problem B → R.Rng → Result (Bool × Problem B × R.Rng)
    solve_loop zero ignore_softs p r = err undefined
    solve_loop (suc fuel) ignore_softs p r =
        let (b, c) = B.solve (assume_all (round ignore_softs p) (context_of p)) in
        let q = with_context c p in
        elim b [
          | true ↦ ok (true, q, r)
          | false ↦ elim (drop_one p.suggestions r) [
            | none ↦ ok (false, q, r)
            | some (rest, s) ↦
                rest >>= λ left. solve_loop fuel ignore_softs (record q { suggestions = left }) s
          ]
        ]

    -- `solve(ignoreSofts)`
    unfoldable pub solve : Bool → Problem B → R.Rng → Result (Bool × Problem B × R.Rng)
    solve ignore_softs p r =
        let (assumptions, r1) = R.random_shuffle p.assumptions r in
        let (suggestions, r2) = R.random_shuffle p.suggestions r1 in
        let q : Problem B = record p { assumptions = assumptions; suggestions = suggestions } in
        solve_loop (suc (length suggestions)) ignore_softs q r2 >>= λ (b, q', r').
        ok (b, record q' { assumptions = []; suggestions = [] }, r')

  -- `read(v, str)` of the variable with the id `v`: nothing if it has no term
  unfoldable pub read : ℕ → Problem B → Option String
  read v p = elim (p.store.scope.terminals v) [
    | none ↦ none
    | some e ↦ some (B.read_value (context_of p) e)
  ]

  -- `readVector(vec, rand_vec)`, up to the call of `set_values`
  unfoldable pub read_vector : List ℕ → Problem B → Option (List String)
  read_vector [] p = some []
  read_vector (v ∷ vs) p =
      let rest = read_vector vs p in
      elim (p.store.scope.terminals v) [
        | none ↦ none
        | some e ↦ elim rest [ none ↦ none | some ss ↦ some (B.read_value (context_of p) e ∷ ss) ]
      ]

-- In a build without the `assert`s of metaSMT, its calls return.
pub returned-ok : {B : Backend} (I : IsIncremental B) (p : Problem B) → returned B p ≡ ok p
unfolding returned
returned-ok {B} I p = rw (I.never-fails (context_of B p)) refl

-- What has returned is what was there.
pub returned-same : {B : Backend} (p q : Problem B) → returned B p ≡ ok q → p ≡ q
unfolding returned
returned-same {B} p q h = elim (Bool-cases (B.has_failed (context_of B p))) [
  | inl e ↦ let f : err assertion ≡ ok q = rw e at h in cc
  | inr e ↦ let f : ok p ≡ ok q = rw e at h in cc
]

-- The calls have returned, or an `assert` has failed.
pub returned-cases :
    {B : Backend} (p : Problem B)
    → ((B.has_failed (context_of B p) ≡ false) × (returned B p ≡ ok p))
      ⊎ ((B.has_failed (context_of B p) ≡ true) × (returned B p ≡ err assertion))
unfolding returned
returned-cases {B} p = elim (Bool-cases (B.has_failed (context_of B p))) [
  | inl e ↦ inr (e, rw e refl)
  | inr e ↦ inl (e, rw e refl)
]
