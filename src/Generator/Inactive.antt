-- ===== src/Generator/Inactive.antt =====
-- The soft constraints that the analysis in crave/src/lib/VariableDefaultSolver.cpp leaves out.
use Prim.Native.String.{String}
use crave.Prelude.{◌≡◌, List, [], ◌∷◌, ◌++◌, map, false, not, ◌&&◌, if◌then◌else◌}
use crave.Prelude.Result.{Result, ok}
use crave.Constraint.{UserConstraint}
use crave.Solver.MetaSmt.{Backend, IsIncremental}
use crave.Solver.Problem.{
  Problem, is_true, context_of, make_assertion, make_soft_assertion, translate,
}
use crave.Generator.Ready.{IsTranslatable, IsIdle}

-- The soft constraints of a list.
unfoldable pub softs_of : List UserConstraint → List UserConstraint
softs_of [] = []
softs_of (c ∷ cs) = let rest = softs_of cs in if c.soft then c ∷ rest else rest

-- Its hard constraints: neither soft nor cover ones.
unfoldable pub hards_of : List UserConstraint → List UserConstraint
hards_of [] = []
hards_of (c ∷ cs) = let rest = hards_of cs in if not c.soft && not c.cover then c ∷ rest else rest

abbrev pub names : List UserConstraint → List String
names [] = []
names (c ∷ cs) = c.name ∷ names cs

module _ (B : Backend) (I : IsIncremental B) where
  -- A constraint that can be posed, and is not both soft and a cover constraint.
  abbrev pub IsPosable : UserConstraint → Type 0
  IsPosable c = IsTranslatable c.expr × ((c.soft && c.cover) ≡ false)

  -- The call for one constraint that is no cover one.
  abbrev post : UserConstraint → Problem B → Result (Problem B)
  post c p = if c.soft then make_soft_assertion B c.expr p else make_assertion B c.expr p

  -- The expression of a constraint has been translated to the term of a solver.
  abbrev pub Stands : UserConstraint → B.Expr → Type 0
  Stands c e = (p : Problem B) × (q : Problem B) × (translate B c.expr p ≡ ok (e, q))

  -- Each constraint of a list stands for the term at its place.
  abbrev pub AllStand : List UserConstraint → List (B.Expr) → Type 0
  AllStand [] [] = Unit
  AllStand (c ∷ cs) (e ∷ es) = Stands c e × AllStand cs es
  AllStand [] (e ∷ es) = ⊥
  AllStand (c ∷ cs) [] = ⊥

  -- What has been posed since: some hard terms and some soft ones.
  abbrev pub IsPosed : List (B.Expr) → List (B.Expr) → Problem B → Problem B → Type 0
  IsPosed hs ss p q =
      IsIdle B I q
      × (I.asserted (context_of B q) ≡ I.asserted (context_of B p) ++ map is_true hs)
      × (q.softs ≡ p.softs ++ ss)

  -- What the constructor's loop ends in: it has asserted a term for each hard constraint and keeps one
  -- for each soft constraint, in order.
  abbrev pub ArePosted : List UserConstraint → Problem B → Problem B → Type 0
  ArePosted cs p q =
      (hs : List (B.Expr)) × (ss : List (B.Expr)) × AllStand (hards_of cs) hs
      × AllStand (softs_of cs) ss
      × IsPosed hs ss p q
