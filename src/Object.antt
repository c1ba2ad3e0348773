-- ===== src/Object.antt =====
-- The names of objects in crave/src/lib/experimental/Object.cpp: a parent gives each child a name, with a
-- number behind it if the name was taken.
pub mod Names
use Prim.Native.String.{String, ◌++◌ as append}
use text.Mathlib.Text.{◌==◌ as str_eq}
use crave.Prelude.{
  ℕ, ◌+◌, ◌-◌, ◌%◌, ◌^◌, List, [], ◌∷◌, ◌++◌, Option, none, some, ◌==◌, if◌then◌else◌,
}

-- a `crv_object*` with the fields that its parent reads
pub record Child : Type 0 where
  pub id : ℕ
  pub name : String
  pub orig_name : String

-- the fields of the parent
pub record Parent : Type 0 where
  pub children : List Child
  pub local_name_map : String → Option ℕ

-- a parent without children
abbrev pub new_parent : Parent
new_parent = record { children = []; local_name_map = λ k. none }

-- `local_name_map_[key] = value`, and the erasing of a key
abbrev pub assign : String → Option ℕ → (String → Option ℕ) → String → Option ℕ
assign key value m = λ k. if str_eq key k then value else m k

-- `children_.remove(child)`
unfoldable pub remove_all : ℕ → List Child → List Child
remove_all id [] = []
remove_all id (c ∷ cs) = let rest = remove_all id cs in if c.id == id then rest else c ∷ rest

-- `--map[key] == 0`: the value, where a missing key stands for 0
abbrev pub count_of : Option ℕ → ℕ
count_of none = 0
count_of (some n) = n

-- `remove_child(child)`, with the counter as an unsigned number of 32 bits
unfoldable pub remove_child : Child → Parent → Parent
remove_child child p =
    let left = (count_of (p.local_name_map child.orig_name) + (2 ^ 32 - 1)) % 2 ^ 32 in
    let m = assign child.orig_name (some left) p.local_name_map in
    record {
      children = remove_all child.id p.children;
      local_name_map = if left == 0 then assign child.name none m else m;
    }

-- `std::to_string`
module _ (to_string : ℕ → String) where
  -- the part of `crv_object()` on the parent: the new child, and the parent with it
  unfoldable pub attach : ℕ → String → Parent → Child × Parent
  attach id orig p = elim (p.local_name_map orig) [
    | none ↦
        let c : Child = record { id = id; name = orig; orig_name = orig } in
        (
          c,
          record {
            children = p.children ++ c ∷ [];
            local_name_map = assign orig (some 1) p.local_name_map;
          },
        )
    | some n ↦
        let c : Child = record { id = id; name = append orig (to_string n); orig_name = orig } in
        (
          c,
          record {
            children = p.children ++ c ∷ [];
            local_name_map = assign orig (some ((n + 1) % 2 ^ 32)) p.local_name_map;
          },
        )
  ]
