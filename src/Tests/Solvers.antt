-- ===== src/Tests/Solvers.antt =====
-- The theorems on the solver, at a backend whose problems have one propositional variable: a result is
-- the truth table of a term, and a problem is solved by trying both values.
use mathlib.Core.List.Permᴰ.{refl as same}
use crave.Prelude.{
  ℕ, suc, ◌%◌, ◌≡◌, refl, List, [], ◌∷◌, ◌++◌, Bool, true, false, not, ◌&&◌, ◌||◌, if◌then◌else◌,
  arith, All, Bool-cases, inl, inr,
}
use crave.Prelude.Result.{ok, assertion}
use crave.Prelude.Random.{Random, IsRandom}
use crave.Ir.{Node, variable_expr, unary, not_opr}
use crave.Solver.MetaSmt.{
  Term, result, true_term, new_variable, not_term, and_term, or_term, implies, equal, nequal, ite,
  Backend, IsIncremental,
}
use crave.Solver.Problem.{Problem, new_problem, analyse_softs, solve}
use crave.Solver.Softs.{IsMaximal, analyse_softs-IsMaximal}
use crave.Solver.Answer.{IsAnswer, solve-IsAnswer}

-- the value of a term where the variable has the value `x`
abbrev pub value : Bool → Term (Bool × Bool) → Bool
value x (result e) = if x then e.1 else e.0
value x true_term = true
value x new_variable = x
value x (not_term t) = not (value x t)
value x (and_term t u) = value x t && value x u
value x (or_term t u) = value x t || value x u
value x (implies t u) = not (value x t) || value x u
value x (equal t u) = not (value x t) && not (value x u) || value x t && value x u
value x (nequal t u) = value x t && not (value x u) || not (value x t) && value x u
value x (ite t u w) = value x t && value x u || not (value x t) && value x w
value x _ = false

pub record Context : Type 0 where
  pub asserted : List (Term (Bool × Bool))
  pub assumed : List (Term (Bool × Bool))

abbrev pub all_hold : Bool → List (Term (Bool × Bool)) → Bool
all_hold x [] = true
all_hold x (t ∷ ts) = value x t && all_hold x ts

abbrev pub tables : Backend
tables = record {
  Context = Context;
  Expr = Bool × Bool;
  new_context = record { asserted = []; assumed = [] };
  evaluate = λ t c. ((value false t, value true t), c);
  assertion = λ t c. record c { asserted = c.asserted ++ t ∷ [] };
  assumption = λ t c. record c { assumed = c.assumed ++ t ∷ [] };
  solve = λ c. (
    all_hold false (c.asserted ++ c.assumed) || all_hold true (c.asserted ++ c.assumed),
    record c { assumed = [] },
  );
  read_value = λ c e. if e.0 then "1" else "0";
  analyze_conflicts = λ s c. ([], c);
  has_failed = λ c. false;
}

all_hold-All :
    (x : Bool) (ts : List (Term (Bool × Bool)))
    → all_hold x ts ≡ true
    → All (λ t. value x t ≡ true) ts
all_hold-All x [] h = tt
all_hold-All x (t ∷ ts) h = (ground arith, all_hold-All x ts (ground arith))

All-all_hold :
    (x : Bool) (ts : List (Term (Bool × Bool)))
    → All (λ t. value x t ≡ true) ts
    → all_hold x ts ≡ true
All-all_hold x [] h = refl
All-all_hold x (t ∷ ts) h = ground (arith, h.0, All-all_hold x ts h.1)

pub some_value :
    (ts : List (Term (Bool × Bool)))
    → (all_hold false ts || all_hold true ts) ≡ true
    → (x : Bool) × All (λ t. value x t ≡ true) ts
some_value ts h = elim (Bool-cases (all_hold false ts)) [
  | inl e ↦ (false, all_hold-All false ts e)
  | inr e ↦ (true, all_hold-All true ts (ground arith))
]

pub either_value :
    (x : Bool) (ts : List (Term (Bool × Bool)))
    → All (λ t. value x t ≡ true) ts
    → (all_hold false ts || all_hold true ts) ≡ true
either_value false ts h = ground (arith, All-all_hold false ts h)
either_value true ts h = ground (arith, All-all_hold true ts h)

abbrev pub tables-IsIncremental : IsIncremental tables
tables-IsIncremental = record {
  Assignment = Bool;
  Holds = λ x t. value x t ≡ true;
  asserted = λ c. c.asserted;
  assumed = λ c. c.assumed;
  asserted-new_context = refl;
  never-fails = λ c. refl;
  assumed-new_context = refl;
  asserted-evaluate = λ t c. refl;
  assumed-evaluate = λ t c. refl;
  asserted-assertion = λ t c. refl;
  assumed-assertion = λ t c. refl;
  asserted-assumption = λ t c. refl;
  assumed-assumption = λ t c. refl;
  asserted-solve = λ c. refl;
  assumed-solve = λ c. refl;
  solve-sound = λ c h. some_value (c.asserted ++ c.assumed) h;
  solve-complete = λ c x h. either_value x (c.asserted ++ c.assumed) h;
}

-- The generator counts, and a shuffle keeps the order.
abbrev pub counting : Random (Bool × Bool)
counting = record {
  Rng = ℕ;
  random_unsigned = λ n r. (r % n, suc r);
  random_shuffle = λ xs r. (xs, r);
}

pub counting-IsRandom : IsRandom counting
counting-IsRandom = record { below = λ n r. omega arith; shuffled = λ xs r. same xs }

-- The variable, its negation and a truth, as soft constraints.
abbrev soft_problem : Problem tables
soft_problem = record (new_problem tables) {
  softs = (false, true) ∷ (true, false) ∷ (true, true) ∷ [];
}

analyse_softs-IsMaximal_example :
    (is : List ℕ) × (q : Problem tables) × (analyse_softs tables soft_problem ≡ (is, q))
    × IsMaximal tables tables-IsIncremental soft_problem is q
analyse_softs-IsMaximal_example =
    analyse_softs-IsMaximal tables tables-IsIncremental soft_problem refl

-- An assumption that contradicts two of the three suggestions.
abbrev posed_problem : Problem tables
posed_problem = record (new_problem tables) {
  assumptions = (false, true) ∷ [];
  suggestions = (true, false) ∷ (true, true) ∷ (false, false) ∷ [];
}

solve-IsAnswer_example :
    (b : Bool) × (q : Problem tables) × (s : ℕ) × (solve tables counting true posed_problem 0
      ≡ ok (b, q, s))
    × IsAnswer tables tables-IsIncremental true posed_problem b q
    × (q.assumptions ≡ [])
    × (q.suggestions ≡ [])
solve-IsAnswer_example =
    solve-IsAnswer tables tables-IsIncremental counting counting-IsRandom true posed_problem 0 refl

abbrev pub negated : Node
negated = unary not_opr (variable_expr 4 1 true)
