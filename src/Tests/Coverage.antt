-- ===== src/Tests/Coverage.antt =====
-- The theorems on transition bins, at a transition of two states that both test `v1 + 7`.
use crave.Prelude.{ℕ, zero, suc, ◌<◌, arith, ◌≡◌, refl, Bool, true, false, some, none}
use crave.Prelude.Result.{ok}
use crave.Ir.{Node, Constant}
use crave.Ir.Eval.{Evaluator}
use crave.Ir.Eval.Value.{sized, truth}
use crave.Ir.Eval.Meaning.{Means, Covers}
use crave.Coverage.{FsmState, consec, TransitionBin, new_transition_bin, sample, holds}
use crave.Coverage.Refinement.{IsSampled, sample-IsSampled, holds-Answers}
use crave.Coverage.Build.{
  Fsm, add_state, IsLinked, IsAllocated, IsChained, made_state, add_state-IsLinked,
}
use crave.Tests.Eval.{ids, seven, assigned, sum, sum-Means, sum-Covers}

abbrev two_states : ℕ → FsmState
two_states i = record {
  kind = consec;
  succ_state = elim i [ zero ↦ some 1 | suc _ ↦ none ];
  prev_state = elim i [ zero ↦ none | suc _ ↦ some 0 ];
  expr = sum;
  min_hit = 1;
  max_hit = 1;
}

abbrev always : Node → Bool
always n = true

abbrev GoodState : Evaluator → Type 0
GoodState ev = (i : ℕ) → Covers (λ v. seven) ev.store.map (two_states i).expr

states-Means :
    (i : ℕ)
    → (c : Constant) × Means (λ v. seven) (two_states i).expr c
      × (always (two_states i).expr ≡ truth c)
states-Means i = (sized 14 8 false, sum-Means, refl)

sample-IsSampled_example :
    (b' : TransitionBin) × (e' : Evaluator) × (sample
        (holds ids)
        two_states
        (new_transition_bin 0)
        assigned
      ≡ ok (b', e'))
    × GoodState e'
    × IsSampled two_states always (new_transition_bin 0) b'
sample-IsSampled_example =
    sample-IsSampled (holds ids) two_states always GoodState (new_transition_bin 0) assigned
      (holds-Answers ids (λ v. seven) two_states always states-Means) (λ i. sum-Covers)

abbrev no_states : Fsm
no_states = record { next = 0; cell = two_states }

abbrev one_state : Fsm
one_state = (add_state 1 1 none sum consec no_states).1

no_states-IsLinked : IsLinked no_states
no_states-IsLinked i j l e = absurd (omega arith)

one_state-IsLinked : IsLinked one_state
one_state-IsLinked =
    (add_state-IsLinked 1 1 none sum consec no_states no_states-IsLinked (λ i e. cc)).0

one_state-IsAllocated : IsAllocated one_state (some 0)
unfolding add_state
one_state-IsAllocated i e = let q : 0 ≡ i = cc e in omega arith

add_state-IsLinked_example :
    let (made, fsm') = add_state 2 3 (some 0) sum consec one_state in
    IsLinked fsm'
    × IsAllocated fsm' made
    × (◌≡◌ {A = ℕ} 2 0 → (made ≡ some 0) × (fsm' ≡ one_state))
    × (0 < 2
        → (made ≡ some one_state.next)
          × IsChained (some 0) (made_state 2 3 (some 0) sum consec) one_state fsm')
add_state-IsLinked_example =
    add_state-IsLinked 2 3 (some 0) sum consec one_state one_state-IsLinked one_state-IsAllocated
