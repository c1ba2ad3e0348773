-- ===== src/Tests/Defaults.antt =====
-- The theorem on the default solver, at a program with one Boolean: the variable 4 has a BDD solver, a
-- distribution and a value in memory, and the variable 5 is read.
use crave.Prelude.{
  ℕ, suc, ◌%◌, ◌≡◌, refl, [], ◌∷◌, Bool, true, false, some, none, arith, if◌then◌else◌, ◌==◌,
}
use crave.Prelude.Random.{IsRandom}
use mathlib.Core.List.Permᴰ.{refl as same}
use crave.Ir.{Constant, variable_expr}
use crave.Ir.Eval.Direct.{is_filled}
use crave.Generator.Container.{VariableContainer}
use crave.Generator.Default.{Chance, random_of, Values, DefaultSolver, equals}
use crave.Generator.Construct.{random_refs, without_dist}
use crave.Prelude.IntSet.{contains}
use crave.Generator.Picked.{IsPosed}
use crave.Generator.Ready.{IsTranslatable}
use crave.Solver.Answer.{required}
use crave.Solver.Problem.{Problem, new_problem}
use crave.Solver.MetaSmt.{result}
use crave.Solver.Translation.{is_scalar}
use crave.Tests.Solvers.{tables, tables-IsIncremental}

-- The generator counts, and a shuffle keeps the order.
abbrev pub chance : Chance
chance = record { Rng = ℕ; random_unsigned = λ n r. (r % n, suc r); shuffle = λ xs r. (xs, r) }

pub chance-IsRandom : IsRandom (random_of chance (Bool × Bool))
chance-IsRandom = record { below = λ n r. omega arith; shuffled = λ xs r. same xs }

abbrev bit : Bool → Constant
bit b = record { value = if b then 1 else 0; bitsize = 1; sign = true }

abbrev pub values : Values Bool ℕ
values = record {
  node = λ id. variable_expr id 1 true;
  to_constant = λ id s r. (bit true, suc r);
  value_as_constant = λ id m. bit m;
}

abbrev pub one_bit : VariableContainer Bool
one_bit = record {
  variables = λ v. true;
  read_references = (5, λ m. equals (variable_expr 5 1 true) (bit m)) ∷ [];
  write_references = (4, λ s m. true) ∷ [];
  dist_references = (6, λ m. (equals (variable_expr 4 1 true) (bit false), m)) ∷ [];
  dist_ref_to_var_map = λ v. some 4;
}

-- The variable has to hold.
abbrev held : Problem tables
held = record (new_problem tables) {
  store = record ((new_problem tables).store) {
    scope = record ((new_problem tables).store.scope) {
      context = record { asserted = result (false, true) ∷ []; assumed = [] };
    };
  };
}

abbrev pub default_solver : DefaultSolver tables tables Bool
default_solver = record {
  var_ctn = one_bit;
  problem = held;
  contradictions = [];
  bdd_solvers = λ k. if k == 4 then some held else none;
  random_write_refs = 4 ∷ [];
}

pub values-translatable : (id : ℕ) → IsTranslatable (values.node id)
unfolding is_filled is_scalar
values-translatable id = (refl, refl)

held_alone :
    (id : ℕ) (b : Problem tables) → (if id == 4 then some held else none) ≡ some b → b ≡ held
held_alone id b e = ground arith

pub default_solver-IsPosed :
    IsPosed tables tables-IsIncremental tables Bool chance values values-translatable
      tables-IsIncremental chance-IsRandom default_solver
unfolding is_filled is_scalar required
default_solver-IsPosed = (
  refl,
  λ id b e. rw (held_alone id b e) (refl, refl, (true, (refl, tt))),
  ((λ m. (refl, refl)), tt),
  ((λ m. (refl, refl)), tt),
)

-- The constructor drops what it would suggest if more than half of the references have a value.
few_refs : random_refs one_bit.write_references [] ≡ 4 ∷ []
unfolding random_refs without_dist contains
few_refs = refl

many_refs : random_refs one_bit.write_references (4 ∷ []) ≡ []
unfolding random_refs
many_refs = refl
