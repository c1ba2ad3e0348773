-- ===== src/Constraint/Manager.antt =====
-- crave/src/lib/ConstraintManager.cpp: the named constraints of a generator. The constraint objects
-- live on a heap, where the map, the list and the callers share them through pointers.
pub mod Laws
pub mod Make
pub mod Toggle
use Prim.Native.String.{String, ◌++◌ as append}
use text.Mathlib.Text.{◌==◌ as str_eq}
use crave.Prelude.{
  ℕ, suc, List, [], ◌∷◌, ◌++◌, Bool, true, false, not, ◌&&◌, ◌||◌, Option, none, some, ◌==◌,
  if◌then◌else◌,
}
use crave.Prelude.Result.{Result, ok, throw_if, assert_that, ◌>>=◌, ◌>>◌}
use crave.Ir.{Node, for_each, unique}
use crave.Ir.Support.{support_set}
use crave.Ir.Complexity.{get_complexity_estimation}
use crave.Constraint.{UserConstraint, Kind, plain, vector}

-- `std::make_shared` fills the cell `next`; a `ConstraintPtr` is the number of a cell, and is never
-- null nor freed while something holds it.
pub record Heap : Type 0 where
  pub next : ℕ
  pub cell : ℕ → UserConstraint

-- `constr_map_` is only looked up by key.
pub record ConstraintManager : Type 0 where
  pub id : ℕ
  pub constr_map : String → Option ℕ
  pub constraints : List ℕ
  pub changed : Bool

-- a manager and the heap that its pointers lead into
pub record World : Type 0 where
  pub heap : Heap
  pub mng : ConstraintManager

-- `ConstraintManager()`, with the id that its static counter gives
unfoldable pub new_manager : ℕ → ConstraintManager
new_manager id = record { id = id; constr_map = λ k. none; constraints = []; changed = false }

-- `enable()` (`b` is true) and `disable()` (`b` is false) through a pointer
unfoldable pub write_enabled : ℕ → Bool → Heap → Heap
write_enabled p b h = record h {
  cell = λ q. if p == q then record (h.cell q) { enabled = b } else h.cell q;
}

-- the assignment that both calls below make, with `changed_ = true`
unfoldable pub switch : ℕ → Bool → World → World
unfolding write_enabled
switch p b w = record { heap = write_enabled p b w.heap; mng = record (w.mng) { changed = true } }

-- `enableConstraint(key)`: false if there is no such key
unfoldable pub enable_constraint : String → World → Bool × World
enable_constraint key w = elim (w.mng.constr_map key) [
  | none ↦ (false, w)
  | some p ↦ (true, if not (w.heap.cell p).enabled then switch p true w else w)
]

-- `disableConstraint(key)`
unfoldable pub disable_constraint : String → World → Bool × World
disable_constraint key w = elim (w.mng.constr_map key) [
  | none ↦ (false, w)
  | some p ↦ (true, if (w.heap.cell p).enabled then switch p false w else w)
]

-- `isConstraintEnabled(key)`
unfoldable pub is_constraint_enabled : String → World → Bool
is_constraint_enabled key w = elim (w.mng.constr_map key) [
  | none ↦ false
  | some p ↦ (w.heap.cell p).enabled
]

-- `resetChanged()`
unfoldable pub reset_changed : World → World
reset_changed w = record w { mng = record (w.mng) { changed = false } }

-- the chain of `dynamic_pointer_cast`: a vector constraint, unique or not, or a plain one
unfoldable pub kind_of : Node → Kind
kind_of (for_each a b) = vector false
kind_of (unique a) = vector true
kind_of _ = plain

-- the complexity, which is estimated of plain constraints alone and stays 0 of the others
unfoldable pub complexity_of : Kind → Node → Result ℕ
complexity_of plain n = get_complexity_estimation n
complexity_of (vector u) n = ok 0

-- `make_shared`, `push_back` and the entry of the map
unfoldable pub insert_constraint : String → UserConstraint → World → World
insert_constraint name c w =
    let p = w.heap.next in
    record {
      heap = record { next = suc p; cell = λ q. if p == q then c else w.heap.cell q };
      mng = record (w.mng) {
        constr_map = λ k. if str_eq name k then some p else w.mng.constr_map k;
        constraints = w.mng.constraints ++ p ∷ [];
        changed = true;
      };
    }

-- `constr_map_.find(name) != end()`
abbrev pub has_key : String → World → Bool
has_key name w = elim (w.mng.constr_map name) [ none ↦ false | some p ↦ true ]

abbrev pub is_vector_kind : Kind → Bool
is_vector_kind plain = false
is_vector_kind (vector u) = true

-- the constructors of `UserConstraint` and `UserVectorConstraint`, with `enabled` by default, and the
-- assignment of `complexity_`
unfoldable pub new_constraint : String → ℕ → Node → Bool → Bool → ℕ → UserConstraint
new_constraint name c_id n soft cover complexity = record {
  id = c_id;
  expr = n;
  name = name;
  support_vars = support_set n;
  soft = soft;
  cover = cover;
  enabled = true;
  complexity = complexity;
  kind = kind_of n;
}

-- `makeConstraint(name, c_id, n, ctx, soft, cover)`, with the pointer that it returns. A call that
-- throws leaves the manager as it was.
unfoldable pub make_constraint : String → ℕ → Node → Bool → Bool → World → Result (ℕ × World)
make_constraint name c_id n soft cover w = do
  throw_if (has_key name w) (append name "Constraint already exists.")
  let kind = kind_of n
  assert_that (not soft || not cover)
  assert_that (not (is_vector_kind kind) || not cover)
  complexity ← complexity_of kind n
  ok (w.heap.next, insert_constraint name (new_constraint name c_id n soft cover complexity) w)

-- The constraints that the list points at.
unfoldable pub deref : Heap → List ℕ → List UserConstraint
deref h [] = []
deref h (p ∷ ps) = h.cell p ∷ deref h ps
