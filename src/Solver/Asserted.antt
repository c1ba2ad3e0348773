-- ===== src/Solver/Asserted.antt =====
-- What `makeAssertion` of crave/src/lib/metaSMTNodeVisitorImpl.hpp ends in.
use Prim.Native.String.{String}
use crave.Prelude.{ℕ, ◌≡◌, Bool, true, false, some, ◌⊎◌}
use crave.Prelude.Result.{ok, assertion}
use crave.Prelude.IntSet.{contains}
use crave.Ir.{Node}
use crave.Ir.Support.{support_set}
use crave.Solver.MetaSmt.{Backend}
use crave.Solver.Problem.{Problem, is_true, context_of, with_context, translate, read}
use crave.Solver.Translation.{Built, Extends, Covers}

module _ (B : Backend) where
  -- The problem after the assertion of a term, with no `assert` failed.
  abbrev pub IsAsserted : B.Expr → Problem B → Problem B → Type 0
  IsAsserted e p q =
      (q ≡ with_context B (B.assertion (is_true e) (context_of B p)) p)
      × (B.has_failed (context_of B q) ≡ false)

  -- What `makeAssertion` leaves: the expression has been translated, by evaluations only, and its term
  -- has been asserted; the stack is as before, and each of the ids has a term.
  abbrev IsPosedFor : (ℕ → Bool) → Node → Problem B → Problem B → Type 0
  IsPosedFor ids n p q =
      (e : B.Expr) × (t : Problem B) × (translate B n p ≡ ok (e, t))
      × Built B (context_of B p) (context_of B t)
      × IsAsserted e t q
      × (q.store.stack ≡ p.store.stack)
      × Extends B p.store.scope.terminals q.store.scope.terminals
      × Covers B ids q.store.scope.terminals

  -- An `assert` of the backend has failed, in an evaluation or at the assertion of the term.
  abbrev pub IsRefused : Node → Problem B → Type 0
  IsRefused n p =
      ((c : B.Context) × Built B (context_of B p) c × (B.has_failed c ≡ true))
      ⊎ ((e : B.Expr) × (t : Problem B) × (translate B n p ≡ ok (e, t))
          × (B.has_failed (B.assertion (is_true e) (context_of B t)) ≡ true))

  -- The problem that is left: the term that the expression is translated to, by evaluations only, has
  -- been asserted, the stack is as before, and each variable of the expression is read.
  abbrev pub IsPosed : Node → Problem B → Problem B → Type 0
  IsPosed n p q =
      (e : B.Expr) × (t : Problem B) × (translate B n p ≡ ok (e, t))
      × Built B (context_of B p) (context_of B t)
      × IsAsserted e t q
      × (q.store.stack ≡ p.store.stack)
      × Extends B p.store.scope.terminals q.store.scope.terminals
      × ((v : ℕ) → contains v (support_set n) ≡ true → (s : String) × (read B v q ≡ some s))
