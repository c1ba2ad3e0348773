-- ===== src/VectorGenerator.antt =====
-- crave/src/lib/VectorGenerator.cpp: the constraints over vectors, sorted by the vector that they are
-- about, with one solver for each.
pub mod Ground
pub mod Build
pub mod Posed
pub mod Solved
use crave.Prelude.{
  ℕ, suc, ◌≡◌, ◌≤◌, ◌<◌, refl, sym, List, ltb, Bool-cases, [], ◌∷◌, ◌++◌, Bool, false, Option, none,
  some, ◌==◌, if◌then◌else◌, arith, All, Option-cases, inl, inr,
}
use mathlib.Core.List.{append-nil, append_assoc}
use crave.Prelude.Result.{Result, ok, ◌>>=◌}
use crave.Ir.Replace.{Element}
use crave.Constraint.{UserConstraint, get_vector_id}

-- `VectorSolver`; its solver is made anew by each call of `solve`
pub record VectorSolver : Type 0 where
  pub vector_id : ℕ
  pub constraints : List UserConstraint
  pub vec_elements : List Element

-- `vector_solvers_`, in the order of the keys
abbrev pub VectorSolverMap : Type 0
VectorSolverMap = List (ℕ × VectorSolver)

-- `vector_solvers_.find(k)`
unfoldable pub find : ℕ → VectorSolverMap → Option VectorSolver
find k [] = none
find k ((j, s) ∷ m) = if j == k then some s else find k m

-- `VectorSolver(vector_id)`
abbrev pub new_vector_solver : ℕ → VectorSolver
new_vector_solver v = record { vector_id = v; constraints = []; vec_elements = [] }

-- `VectorSolver::addConstraint(vc)`
abbrev pub add_to_solver : UserConstraint → VectorSolver → VectorSolver
add_to_solver c s = record s { constraints = s.constraints ++ c ∷ [] }

-- the two branches of `VectorGenerator::addConstraint`, for the vector `v`
unfoldable pub place : ℕ → UserConstraint → VectorSolverMap → VectorSolverMap
place v c [] = (v, add_to_solver c (new_vector_solver v)) ∷ []
place v c ((k, s) ∷ m) =
    if ltb k v
    then (k, s) ∷ place v c m
    else if v == k
    then (k, add_to_solver c s) ∷ m
    else (v, add_to_solver c (new_vector_solver v)) ∷ (k, s) ∷ m

-- `VectorGenerator::addConstraint(vc)`
unfoldable pub add_constraint : UserConstraint → VectorSolverMap → Result VectorSolverMap
add_constraint c solvers = do v ← get_vector_id c; ok (place v c solvers)

-- the loop of `reset`
unfoldable pub add_constraints : List UserConstraint → VectorSolverMap → Result VectorSolverMap
add_constraints [] solvers = ok solvers
add_constraints (c ∷ cs) solvers = do next ← add_constraint c solvers; add_constraints cs next

-- `reset(v)`
unfoldable pub reset_vectors : List UserConstraint → Result VectorSolverMap
reset_vectors cs = add_constraints cs []

-- The description: the constraints whose first id is `k`, in order.
abbrev first_is : ℕ → UserConstraint → Bool
first_is k c = elim c.support_vars [ [] ↦ false | v ∷ vs ↦ v == k ]

unfoldable pub about : ℕ → List UserConstraint → List UserConstraint
about k [] = []
about k (c ∷ cs) = if first_is k c then c ∷ about k cs else about k cs

-- The constraint reads a vector.
abbrev pub HasVector : UserConstraint → Type 0
HasVector c = (v : ℕ) × (get_vector_id c ≡ ok v)

-- The constraints of a solver, if there is one.
unfoldable pub held : Option VectorSolver → List UserConstraint
held none = []
held (some s) = s.constraints

-- Each solver is filed under its own vector, the keys ascend, and all of them are above `low`.
abbrev pub IsFiledFrom : ℕ → VectorSolverMap → Type 0
IsFiledFrom low [] = Unit
IsFiledFrom low ((k, s) ∷ m) = (low ≤ k) × (s.vector_id ≡ k) × IsFiledFrom (suc k) m

abbrev pub IsFiled : VectorSolverMap → Type 0
IsFiled m = IsFiledFrom 0 m

find-below : (low k : ℕ) (m : VectorSolverMap) → IsFiledFrom low m → k < low → find k m ≡ none
unfolding find
find-below low k [] f h = refl
find-below low k ((j, s) ∷ m) (l, e, f) h = ground (arith, find-below (suc j) k m f)

held-place :
    (v : ℕ) (c : UserConstraint) (low : ℕ) (m : VectorSolverMap) (k : ℕ)
    → IsFiledFrom low m
    → held (find k (place v c m)) ≡ held (find k m) ++ (if v == k then c ∷ [] else [])
unfolding held place find
held-place v c low [] k f = ground arith
held-place v c low ((j, s) ∷ m) k (l, e, f) = ground (
  arith,
  held-place v c (suc j) m k f,
  append-nil (held (find k m)),
  append-nil s.constraints,
  find-below (suc j) v m f,
)

place-IsFiled :
    (v : ℕ) (c : UserConstraint) (low : ℕ) (m : VectorSolverMap)
    → low ≤ v
    → IsFiledFrom low m
    → IsFiledFrom low (place v c m)
unfolding place
place-IsFiled v c low [] h f = (h, refl, tt)
place-IsFiled v c low ((k, s) ∷ m) h (l, e, f) = elim (Bool-cases (ltb k v)) [
  | inl b ↦ rw b (l, e, place-IsFiled v c (suc k) m (ground arith) f)
  | inr b ↦ rw b (elim (Bool-cases (v == k)) [
    | inl d ↦ rw d (l, e, f)
    | inr d ↦ rw d (h, refl, (ground arith, e, f))
  ])
]

first_is-vector_id :
    (c : UserConstraint) (v k : ℕ) → get_vector_id c ≡ ok v → first_is k c ≡ (v == k)
unfolding get_vector_id
first_is-vector_id c v k e = ground arith

add_constraints-held :
    (cs : List UserConstraint) (m : VectorSolverMap)
    → All HasVector cs
    → IsFiled m
    → (m' : VectorSolverMap) × (add_constraints cs m ≡ ok m')
      × IsFiled m'
      × ((k : ℕ) → held (find k m') ≡ held (find k m) ++ about k cs)
unfolding add_constraints add_constraint about
add_constraints-held [] m h f = (m, refl, f, λ k. sym (append-nil (held (find k m))))
add_constraints-held (c ∷ cs) m ((v, e), h) f =
    let (m', e', f', g) =
      add_constraints-held cs (place v c m) h (place-IsFiled v c 0 m (omega arith) f) in
    (
      m',
      rw e e',
      f',
      λ k. ground (
        arith,
        g k,
        held-place v c 0 m k f,
        first_is-vector_id c v k e,
        append_assoc (held (find k m)) (c ∷ []) (about k cs),
        append-nil (held (find k m)),
      ),
    )

-- For constraints that all read a vector, `reset` returns: the solver of each vector is filed under
-- it, in the order of the vectors, and has the constraints that are about it, in their order; no
-- other vector has a solver with a constraint.
pub reset_vectors-about :
    (cs : List UserConstraint)
    → All HasVector cs
    → (m : VectorSolverMap) × (reset_vectors cs ≡ ok m)
      × IsFiled m
      × ((k : ℕ) → held (find k m) ≡ about k cs)
unfolding reset_vectors held find
reset_vectors-about cs h = add_constraints-held cs [] h tt
