-- ===== src/Generator/Suggest.antt =====
-- The suggestions of crave/src/lib/VariableDefaultSolver.cpp add nothing that a solution has to satisfy.
use crave.Prelude.{ℕ, ◌≡◌, refl, ◌∙◌, [], ◌∷◌, ◌++◌, Bool, true, false}
use crave.Prelude.Result.{Returns}
use crave.Ir.{Constant, Node}
use crave.Ir.Support.{occurs}
use crave.Ir.Eval.Direct.{is_filled}
use crave.Solver.{visit}
use crave.Solver.MetaSmt.{Backend, IsIncremental}
use crave.Solver.Problem.{Problem, translate, make_suggestion, returned-ok}
use crave.Solver.Answer.{required}
use crave.Solver.Translation.{is_scalar, Translated, visit-Translated}
use crave.Generator.Ready.{IsTranslatable, IsIdle, assumed-Built, asserted-Built}
use crave.Generator.Default.{equals}

module _ (B : Backend) (I : IsIncremental B) where
  -- The terms that a solution has to satisfy are the same.
  abbrev pub IsUnmoved : Problem B → Problem B → Type 0
  IsUnmoved p q = IsIdle B I q × (required B I true q ≡ required B I true p)

  suggested :
      (b : Bool) (ids : ℕ → Bool) (n : Node) (p : Problem B)
      → b ≡ true
      → Translated B b ids p.store (visit B n p.store)
      → IsIdle B I p
      → Returns (make_suggestion B n p) (IsUnmoved p)
  unfolding Translated translate make_suggestion required
  suggested true ids n p t (e, g, h, x, c, b) i = (
    record p { store = record (p.store) { scope = g }; suggestions = p.suggestions ++ e.0 ∷ [] },
    rw h (rw (returned-ok I (record p { store = record (p.store) { scope = g } })) refl),
    (assumed-Built B I b ∙ i, rw (asserted-Built B I b) refl),
  )
  suggested false ids n p t h i = cc

  pub suggestion-returns :
      (n : Node) (p : Problem B)
      → IsTranslatable n
      → IsIdle B I p
      → Returns (make_suggestion B n p) (IsUnmoved p)
  suggestion-returns n p (f, s) i =
      suggested (is_scalar n) (λ v. occurs v n) n p s (visit-Translated B n p.store f) i

  pub equals-IsTranslatable :
      (n : Node) (k : Constant) → IsTranslatable n → IsTranslatable (equals n k)
  unfolding is_filled is_scalar
  equals-IsTranslatable n k (f, s) = (rw f refl, rw s refl)
