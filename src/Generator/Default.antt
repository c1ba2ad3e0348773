-- ===== src/Generator/Default.antt =====
-- crave/src/lib/VariableDefaultSolver.cpp: the solving of a partition. Values that its BDD solvers, its
-- distributions and the program's memory give are suggestions, which the solver may drop. The calls of
-- `solve()` have the default argument, by which soft constraints are ignored.
use Prim.Native.String.{String}
use crave.Prelude.{
  ℕ, ◌+◌, ◌/◌, List, [], ◌∷◌, Bool, true, false, Option, none, some, ◌==◌, length, if◌then◌else◌,
}
use crave.Prelude.Result.{Result, ok, assert_that, ◌>>=◌, ◌>>◌}
use crave.Prelude.Random.{Random}
use crave.Ir.{Constant, Node, constant, binary, equal_opr}
use crave.Solver.MetaSmt.{Backend}
use crave.Solver.Problem.{Problem, make_suggestion, solve, read}
use crave.Generator.Container.{VariableContainer}
use crave.Generator.Cover.{assume_refs, write_refs}
use crave.VectorGenerator.Build.{take}

-- `crave::random_unsigned`, and `std::random_shuffle` over it, for every type of element
pub record Chance : Type 1 where
  pub Rng : Type 0
  pub random_unsigned : ℕ → Rng → ℕ × Rng
  pub shuffle : {A : Type 0} → List A → Rng → List A × Rng

abbrev pub random_of : Chance → (E : Type 0) → Random E
random_of ch E = record {
  Rng = ch.Rng;
  random_unsigned = ch.random_unsigned;
  random_shuffle = λ xs r. ch.shuffle xs r;
}

-- What the solver uses of `variables` and of the write references, by id: `*variables[id]`,
-- `to_constant(str)`, which may draw bits, and `value_as_constant()`.
pub record Values (M Rng : Type 0) : Type 0 where
  pub node : ℕ → Node
  pub to_constant : ℕ → String → Rng → Constant × Rng
  pub value_as_constant : ℕ → M → Constant

-- the fields of `VariableDefaultSolver`; the solvers of single variables are by BDDs, `C`
pub record DefaultSolver (B C : Backend) (M : Type 0) : Type 0 where
  pub var_ctn : VariableContainer M
  pub problem : Problem B
  pub contradictions : List (List String)
  pub bdd_solvers : ℕ → Option (Problem C)
  pub random_write_refs : List ℕ

-- `EqualOpr(var, value)`
abbrev pub equals : Node → Constant → Node
equals var value = binary equal_opr var (constant value)

module _ (B C : Backend) (M : Type 0) (ch : Chance) (V : Values M (ch.Rng)) where
  -- what `read` leaves in an empty text
  unfoldable pub text_of : ℕ → Problem C → String
  text_of id b = elim (read C id b) [ none ↦ "" | some s ↦ s ]

  -- the body of the first loop, for a variable with a BDD solver
  unfoldable pub suggest_bdd :
      ℕ → Problem C → Problem B → ch.Rng → Result (Problem C × Problem B × ch.Rng)
  suggest_bdd id b p r = do
    (found, b1, r1) ← solve C (random_of ch (C.Expr)) true b r
    assert_that found
    let (value, r2) = V.to_constant id (text_of id b1) r1
    q ← make_suggestion B (equals (V.node id) value) p
    ok (b1, q, r2)

  -- the first loop, over the write references
  unfoldable pub suggest_bdds :
      List (ℕ × (String → M → M))
      → (ℕ → Option (Problem C))
      → Problem B
      → ch.Rng
      → Result ((ℕ → Option (Problem C)) × Problem B × ch.Rng)
  suggest_bdds [] bdds p r = ok (bdds, p, r)
  suggest_bdds (pair ∷ pairs) bdds p r = elim (bdds pair.0) [
    | none ↦ suggest_bdds pairs bdds p r
    | some b ↦ do
      (b1, q, r1) ← suggest_bdd pair.0 b p r
      suggest_bdds pairs (λ k. if pair.0 == k then some b1 else bdds k) q r1
  ]

  -- the loop over the references with a distribution, each of which draws a value
  unfoldable pub suggest_dists : List (ℕ × (M → Node × M)) → M → Problem B → Result (M × Problem B)
  suggest_dists [] m p = ok (m, p)
  suggest_dists (pair ∷ pairs) m p = do
    let (n, m1) = pair.1 m
    q ← make_suggestion B n p
    suggest_dists pairs m1 q

  -- the loop over the chosen half of `random_write_refs_`
  unfoldable pub suggest_values : List ℕ → M → Problem B → Result (Problem B)
  suggest_values [] m p = ok p
  suggest_values (id ∷ ids) m p = do
    q ← make_suggestion B (equals (V.node id) (V.value_as_constant id m)) p
    suggest_values ids m q

  -- the shuffle, if there is something to shuffle
  unfoldable pub shuffle_refs : List ℕ → ch.Rng → List ℕ × ch.Rng
  shuffle_refs [] r = ([], r)
  shuffle_refs (id ∷ ids) r = ch.shuffle (id ∷ ids) r

  -- all that is suggested and assumed before the call of the solver
  unfoldable pub prepare :
      DefaultSolver B C M → M → ch.Rng → Result (DefaultSolver B C M × M × ch.Rng)
  prepare s m r = do
    (bdds, p1, r1) ← suggest_bdds s.var_ctn.write_references s.bdd_solvers s.problem r
    p2 ← assume_refs B s.var_ctn.read_references m p1
    (m1, p3) ← suggest_dists s.var_ctn.dist_references m p2
    let (refs, r2) = shuffle_refs s.random_write_refs r1
    p4 ← suggest_values (take ((length refs + 1) / 2) refs) m1 p3
    ok (record s { problem = p4; bdd_solvers = bdds; random_write_refs = refs }, m1, r2)

  -- `!contradictions_.empty()`
  unfoldable pub has_contradictions : DefaultSolver B C M → Bool
  has_contradictions s = elim (s.contradictions) [ [] ↦ false | x ∷ xs ↦ true ]

  -- `solve()`, after its first test
  unfoldable pub solve_prepared :
      DefaultSolver B C M × M × ch.Rng → Result (Bool × DefaultSolver B C M × M × ch.Rng)
  solve_prepared (t, m1, r1) = do
    (found, q, r2) ← solve B (random_of ch (B.Expr)) true t.problem r1
    ok (
      found,
      record t { problem = q },
      (if found then write_refs B t.var_ctn.write_references q m1 else m1),
      r2,
    )

  -- `solve()`
  unfoldable pub solve_default :
      DefaultSolver B C M → M → ch.Rng → Result (Bool × DefaultSolver B C M × M × ch.Rng)
  solve_default s m r =
      if has_contradictions s
      then ok (false, s, m, r)
      else (prepare s m r >>= λ prepared. solve_prepared prepared)
