-- ===== src/Solver/MetaSmt.antt =====
-- metaSMT, which crave/src/lib/metaSMTNodeVisitorImpl.hpp calls: the terms that the visitor builds
-- (`preds::...`, `qf_bv::...`), and the operations of a solver context, which are a parameter.
use Prim.Native.String.{String}
use crave.Prelude.{false, ℕ, ◌≡◌, List, [], ◌∷◌, ◌++◌, Bool, true, All}

-- a term over the results that `evaluate` gave before
pub data Term (E : Type 0) : Type 0 where
  result : E → Term E
  true_term false_term new_variable : Term E
  new_bitvector : ℕ → Term E
  bvsint bvuint : ℕ → ℕ → Term E
  not_term bvneg bvnot : Term E → Term E
  and_term or_term implies equal nequal : Term E → Term E → Term E
  bvand bvor bvxor bvadd bvsub bvmul bvshl bvshr : Term E → Term E → Term E
  bvslt bvult bvsle bvule bvsgt bvugt bvsge bvuge : Term E → Term E → Term E
  bvsdiv bvudiv bvsrem bvurem : Term E → Term E → Term E
  sign_extend zero_extend : ℕ → Term E → Term E
  extract : ℕ → ℕ → Term E → Term E
  ite : Term E → Term E → Term E → Term E

-- `SolverType`, its `result_type`, and the functions of the namespace metaSMT on it
pub record Backend : Type 1 where
  pub Context : Type 0
  pub Expr : Type 0
  pub new_context : Context
  pub evaluate : Term Expr → Context → Expr × Context
  pub assertion : Term Expr → Context → Context
  pub assumption : Term Expr → Context → Context
  pub solve : Context → Bool × Context
  pub read_value : Context → Expr → String
  pub analyze_conflicts : List (ℕ × Expr) → Context → List (List ℕ) × Context
  -- whether an `assert` inside one of the calls so far has failed, such as that on equal widths of the
  -- operands; the program has ended then
  pub has_failed : Context → Bool

-- What metaSMT documents of an incremental solver: a context, empty at first, has assertions, which stay, and
-- assumptions, which the next call of `solve` drops; `evaluate` changes neither; and `solve` answers whether some assignment
-- satisfies all of both.
pub record IsIncremental (B : Backend) : Type 1 where
  pub Assignment : Type 0
  pub Holds : Assignment → Term (B.Expr) → Type 0
  pub asserted : B.Context → List (Term (B.Expr))
  pub assumed : B.Context → List (Term (B.Expr))
  pub asserted-new_context : asserted B.new_context ≡ []
  pub assumed-new_context : assumed B.new_context ≡ []
  -- a build with `NDEBUG`, in which the `assert`s inside metaSMT are no code
  pub never-fails : (c : B.Context) → B.has_failed c ≡ false
  pub asserted-evaluate :
      (t : Term (B.Expr)) (c : B.Context) → asserted ((B.evaluate t c).1) ≡ asserted c
  pub assumed-evaluate :
      (t : Term (B.Expr)) (c : B.Context) → assumed ((B.evaluate t c).1) ≡ assumed c
  pub asserted-assertion :
      (t : Term (B.Expr)) (c : B.Context) → asserted (B.assertion t c) ≡ asserted c ++ t ∷ []
  pub assumed-assertion :
      (t : Term (B.Expr)) (c : B.Context) → assumed (B.assertion t c) ≡ assumed c
  pub asserted-assumption :
      (t : Term (B.Expr)) (c : B.Context) → asserted (B.assumption t c) ≡ asserted c
  pub assumed-assumption :
      (t : Term (B.Expr)) (c : B.Context) → assumed (B.assumption t c) ≡ assumed c ++ t ∷ []
  pub asserted-solve : (c : B.Context) → asserted ((B.solve c).1) ≡ asserted c
  pub assumed-solve : (c : B.Context) → assumed ((B.solve c).1) ≡ []
  pub solve-sound :
      (c : B.Context)
      → (B.solve c).0 ≡ true
      → (a : Assignment) × All (Holds a) (asserted c ++ assumed c)
  pub solve-complete :
      (c : B.Context) (a : Assignment)
      → All (Holds a) (asserted c ++ assumed c)
      → (B.solve c).0 ≡ true
