-- ===== src/Tests/RandObjs.antt =====
-- The theorems on random objects, at a tree of three: object 0 has the children 1 and 2.
use crave.Prelude.{
  ℕ, ◌<◌, ◌≡◌, ◌⊎◌, ◌↔◌, List, [], ◌∷◌, Bool, true, false, Option, none, some, arith, ◌==◌,
  Bool-cases, inl, inr, if◌then◌else◌,
}
use crave.Prelude.Result.{Result, ok, ◌>>=◌}
use crave.Constraint.Partitioner.State.{ConstraintPartitioner}
use crave.Generator.{Gen}
use crave.Generator.Rebuild.{IsRemade}
use crave.RandObj.{RandObj, Objects, new_rand_obj, request_rebuild, rebuild_object}
use crave.RandObj.Request.{Above, IsOrdered, parent_of, is_due, content, request_rebuild-Above}
use crave.RandObj.Gather.{IsGrown, IsWhole, others, fresh, rebuilt, rebuild_object-IsWhole}
use crave.RandObj.Tree.{IsTree, IsAdded, new_rand_obj-IsTree}
use crave.Tests.Solvers.{tables, counting}
use crave.Tests.Generators.{always, generator, heap, variables}

abbrev object_below : Option ℕ → List ℕ → RandObj tables Bool counting always
object_below parent children = record {
  constraint = generator;
  base_children = [];
  obj_children = children;
  parent = parent;
  needs_rebuild = false;
}

abbrev three_objects : Objects tables Bool counting always
three_objects = record {
  count = 3;
  object = λ p. if p == 0 then object_below none (1 ∷ 2 ∷ []) else object_below (some 0) [];
}

three_objects-IsOrdered : IsOrdered tables Bool counting always three_objects
unfolding parent_of
three_objects-IsOrdered p q e = ground arith

three_objects-IsGrown : IsGrown tables Bool counting always three_objects
three_objects-IsGrown p = elim (Bool-cases (p == 0)) [
  | inl e ↦ rw e (ground arith)
  | inr e ↦ rw e tt
]

request_rebuild-Above_example :
    ((r : ℕ)
      → (is_due tables Bool counting always
            (request_rebuild tables Bool counting always 2 three_objects)
            r
          ≡ true)
        ↔ ((is_due tables Bool counting always three_objects r ≡ true) ⊎ Above three_objects r 2))
    × ((q : ℕ)
        → content tables Bool counting always
            (request_rebuild tables Bool counting always 2 three_objects)
            q
          ≡ content tables Bool counting always three_objects q)
request_rebuild-Above_example =
    request_rebuild-Above tables Bool counting always 2 three_objects three_objects-IsOrdered

within : 0 < 3
within = omega arith

rebuild_object-IsWhole_example :
    (pt : ConstraintPartitioner) × (g : Gen tables Bool counting always) × IsWhole tables Bool
      counting always variables heap 0 three_objects pt
    × (others tables Bool counting always g
        ≡ others tables Bool counting always
            (fresh tables Bool counting always variables heap 0 three_objects))
    × (call : Result (Gen tables Bool counting always)) × IsRemade tables Bool counting always
        variables pt g call
    × (rebuild_object tables Bool counting always variables heap 0 three_objects ≡ (
        call >>= λ g2. ok (rebuilt tables Bool counting always variables heap 0 three_objects g2)))
rebuild_object-IsWhole_example =
    rebuild_object-IsWhole tables Bool counting always variables heap 0 three_objects
      three_objects-IsGrown within

three_objects-IsTree : IsTree tables Bool counting always three_objects
three_objects-IsTree = (three_objects-IsOrdered, three_objects-IsGrown)

made_before : (q : ℕ) → some 2 ≡ some q → q < 3
made_before q e = ground arith

new_rand_obj-IsTree_example :
    IsTree tables Bool counting always
      (new_rand_obj tables Bool counting always (some 2) generator three_objects).1
    × IsAdded tables Bool counting always
        (some 2)
        generator
        three_objects
        (new_rand_obj tables Bool counting always (some 2) generator three_objects)
new_rand_obj-IsTree_example =
    new_rand_obj-IsTree tables Bool counting always (some 2) generator three_objects
      three_objects-IsTree made_before
