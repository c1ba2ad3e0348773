-- ===== src/VectorGenerator/Solved.antt =====
-- The call of `solve` of crave/src/lib/VectorGenerator.cpp for one vector: it returns, and its answer.
use Prim.Native.String.{String}
use crave.Prelude.{ℕ, ◌≡◌, List, [], ◌∷◌, Bool, true, false, length}
use crave.Prelude.Result.{Result, ok}
use crave.Prelude.Random.{Random, IsRandom}
use crave.Ir.{Node}
use crave.Ir.Replace.{Element}
use crave.Ir.Replace.Follows.{ids_of}
use crave.Constraint.{UserConstraint}
use crave.Solver.MetaSmt.{Backend, IsIncremental}
use crave.Solver.Problem.{Problem, new_problem, context_of}
use crave.Solver.Softs.{Satisfiable}
use crave.Generator.Ready.{IsIdle}
use crave.VectorGenerator.{VectorSolver}
use crave.VectorGenerator.Build.{Vectors, resize, reset_solver}
use crave.VectorGenerator.Posed.{nodes, pose_all}

module _ (B : Backend) (I : IsIncremental B) where
  -- Nothing is assumed, neither by the solver nor for the next call of `solve`.
  abbrev pub IsQuiet : Problem B → Type 0
  IsQuiet p = IsIdle B I p × (p.assumptions ≡ [])

  -- What the loop over the constraints has posed: for one after the other, the nodes that stand for it,
  -- as soft ones or not. The elements keep their ids.
  abbrev pub ArePosed :
      ℕ → List UserConstraint → List Element → Problem B → List Element → Problem B → Type 0
  ArePosed size [] es p gs r = (gs ≡ es) × (r ≡ p)
  ArePosed size (c ∷ cs) es p gs r =
      (ns : List Node) × (q : Problem B) × (fs : List Element) × (nodes size c es ≡ ok ns)
      × (pose_all B c.soft ns p ≡ ok q)
      × (ids_of fs ≡ ids_of es)
      × ArePosed size cs fs q gs r

  -- Some assignment satisfies all that is asserted.
  abbrev pub HasSolution : Problem B → Type 0
  HasSolution p = Satisfiable B I (I.asserted (context_of B p))

  module _ (R : Random (B.Expr)) (L : IsRandom R) where
    -- The answer says whether the hard constraints have a solution.
    abbrev pub IsDecided : Problem B → Bool → Type 0
    IsDecided p b = (b ≡ true → HasSolution p) × (HasSolution p → b ≡ true)

    module _ (M : Type 0) (V : Vectors M (R.Rng)) where
      -- The solver of a vector after a call: its problem, which has the answer, and its elements.
      abbrev pub IsSolved : ℕ → VectorSolver → M → Result (Bool × VectorSolver × M × R.Rng) → Type 0
      IsSolved size s m call =
          (p : Problem B) × (t : VectorSolver) × (m1 : M) × (b : Bool) × (m2 : M) × (r2 : R.Rng)
          × (reset_solver B M R V size s m ≡ ok (p, t, m1))
          × ArePosed size s.constraints (resize V.new_var_id size s.vec_elements m).0
              (new_problem B) t.vec_elements p
          × (call ≡ ok (b, t, m2, r2))
          × IsDecided p b
          × (b ≡ false → m2 ≡ m1)
          × (length t.vec_elements ≡ size)
          × (t.constraints ≡ s.constraints)
