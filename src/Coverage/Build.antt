-- ===== src/Coverage/Build.antt =====
-- The plain bins of crave/src/crave/experimental/CoverageBins.hpp, and the functions that build the
-- states of a transition on the heap.
use crave.Prelude.{
  ℕ, zero, suc, ◌<◌, ◌%◌, ◌^◌, ◌≡◌, ◌≢◌, refl, Bool, false, Option, none, some, ◌==◌, if◌then◌else◌,
  arith,
}
use crave.Prelude.Result.{Result, ok, ◌>>=◌}
use crave.Ir.{Node}
use crave.Coverage.{NodeType, goto, consec, non_consec, FsmState}

-- `crv_bin`
pub record Bin : Type 0 where
  pub hit_minimum : ℕ
  pub hit_count : ℕ
  pub bin_expr : Node

-- `crv_bin(expr, pHitMinimum)`
abbrev pub new_bin : Node → ℕ → Bin
new_bin n minimum = record { hit_minimum = minimum; hit_count = 0; bin_expr = n }

-- `crv_bin::calcHit(eval_)`
unfoldable pub sample_bin {ℓ} :
    {E : Type ℓ} → (Node → E → Result (Bool × E)) → Bin → E → Result (Bin × E)
sample_bin test b e = do
  (hit, e') ← test b.bin_expr e
  ok (if hit then record b { hit_count = suc b.hit_count % 2 ^ 32 } else b, e')

-- The states that were made: `make_shared` fills the cell `next`.
pub record Fsm : Type 0 where
  pub next : ℕ
  pub cell : ℕ → FsmState

-- whether a pointer, which may be null, leads to the cell
abbrev points_to : Option ℕ → ℕ → Bool
points_to none q = false
points_to (some i) q = i == q

-- `addState<N, M>(node, expr, pNodeType)`
unfoldable pub add_state : ℕ → ℕ → Option ℕ → Node → NodeType → Fsm → Option ℕ × Fsm
add_state zero m last n kind fsm = (last, fsm)
add_state (suc k) m last n kind fsm =
    let made : FsmState = record {
      kind = kind;
      succ_state = none;
      prev_state = last;
      expr = n;
      min_hit = suc k;
      max_hit = m;
    } in
    (
      some fsm.next,
      record {
        next = suc fsm.next;
        cell = λ q.
            if fsm.next == q
            then made
            else if points_to last q
            then record (fsm.cell q) { succ_state = some fsm.next }
            else fsm.cell q;
      },
    )

-- `next`, `consecutive_repeat<N, M>`, `goto_repeat<N, M>` and `non_consecutive_repeat<N, M>`
unfoldable pub consecutive_repeat : ℕ → ℕ → Option ℕ → Node → Fsm → Option ℕ × Fsm
consecutive_repeat k m last n fsm = add_state k m last n consec fsm

unfoldable pub next_state : Option ℕ → Node → Fsm → Option ℕ × Fsm
next_state last n fsm = consecutive_repeat 1 1 last n fsm

unfoldable pub goto_repeat : ℕ → ℕ → Option ℕ → Node → Fsm → Option ℕ × Fsm
goto_repeat k m last n fsm = add_state k m last n goto fsm

unfoldable pub non_consecutive_repeat : ℕ → ℕ → Option ℕ → Node → Fsm → Option ℕ × Fsm
non_consecutive_repeat k m last n fsm = add_state k m last n non_consec fsm

-- A pointer to a state that was made, or null.
abbrev pub IsAllocated : Fsm → Option ℕ → Type 0
IsAllocated fsm last = (i : ℕ) → last ≡ some i → i < fsm.next

-- A state's successor was made, and has this state before it.
abbrev pub IsLinked : Fsm → Type 0
IsLinked fsm =
    (i j : ℕ)
    → i < fsm.next
    → (fsm.cell i).succ_state ≡ some j
    → (j < fsm.next) × ((fsm.cell j).prev_state ≡ some i)

made-IsLinked :
    (k m : ℕ) (last : Option ℕ) (n : Node) (kind : NodeType) (fsm : Fsm)
    → IsLinked fsm
    → IsAllocated fsm last
    → IsLinked (add_state (suc k) m last n kind fsm).1
unfolding add_state
made-IsLinked k m none n kind fsm h a i j l e = (ground (arith, h i j), ground (arith, h i j))
made-IsLinked k m (some x) n kind fsm h a i j l e =
    (ground (arith, h i j, a x refl), ground (arith, h i j, a x refl))

-- The state that `addState` makes for a number of repetitions that is not 0.
abbrev pub made_state : ℕ → ℕ → Option ℕ → Node → NodeType → FsmState
made_state k m last n kind = record {
  kind = kind;
  succ_state = none;
  prev_state = last;
  expr = n;
  min_hit = k;
  max_hit = m;
}

-- A heap with one state more, behind the last one, and nothing else changed.
abbrev pub IsChained : Option ℕ → FsmState → Fsm → Fsm → Type 0
IsChained last made fsm fsm' =
    (fsm'.next ≡ suc fsm.next)
    × (fsm'.cell fsm.next ≡ made)
    × ((i : ℕ) → last ≡ some i → fsm'.cell i ≡ record (fsm.cell i) { succ_state = some fsm.next })
    × ((q : ℕ) → q ≢ fsm.next → last ≢ some q → fsm'.cell q ≡ fsm.cell q)

made-IsChained :
    (k m : ℕ) (last : Option ℕ) (n : Node) (kind : NodeType) (fsm : Fsm)
    → IsAllocated fsm last
    → IsChained last (made_state (suc k) m last n kind) fsm (add_state (suc k) m last n kind fsm).1
unfolding add_state
made-IsChained k m none n kind fsm a =
    (refl, ground arith, (λ i e. absurd (ground arith)), (λ q d f. ground arith))
made-IsChained k m (some x) n kind fsm a =
    (refl, ground arith, (λ i e. ground (arith, a i e)), (λ q d f. ground arith))

-- `addState` on a heap in which each state is the one before its successor, and on a node that was
-- made or is null, keeps that so. For 0 repetitions it returns the node given and changes nothing.
-- For more it returns a new state with the given kind, expression and bounds, no successor and the
-- given node before it; that node, if there is one, has the new state as its successor, and no other
-- state changes.
pub add_state-IsLinked :
    (k m : ℕ) (last : Option ℕ) (n : Node) (kind : NodeType) (fsm : Fsm)
    → IsLinked fsm
    → IsAllocated fsm last
    → let (made, fsm') = add_state k m last n kind fsm in
      IsLinked fsm'
      × IsAllocated fsm' made
      × (k ≡ 0 → (made ≡ last) × (fsm' ≡ fsm))
      × (0 < k → (made ≡ some fsm.next) × IsChained last (made_state k m last n kind) fsm fsm')
unfolding add_state
add_state-IsLinked zero m last n kind fsm h a = (h, a, λ e. (refl, refl), λ l. absurd (omega arith))
add_state-IsLinked (suc k) m last n kind fsm h a = (
  made-IsLinked k m last n kind fsm h a,
  λ i e. ground arith,
  λ e. absurd (ground arith),
  λ l. (refl, made-IsChained k m last n kind fsm a),
)
