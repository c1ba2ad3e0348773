-- ===== src/Coverage/Steps.antt =====
-- What one sample makes of a run of a transition bin of
-- crave/src/crave/experimental/CoverageBins.hpp: a step relation, and a function.
use mathlib.Core.List.{append_assoc, append-nil}
use crave.Prelude.{
  ℕ, suc, ◌≤◌, ◌<◌, ◌≡◌, ◌⊎◌, inl, inr, List, [], ◌∷◌, ◌++◌, Bool, true, false, not, ◌||◌, ◌&&◌,
  Option, none, some, ltb, leb, if◌then◌else◌, arith, Option-cases,
}
use crave.Ir.{Node}
use crave.Coverage.{
  FsmState, Run, Progress, push_back, follow, calc_hit, soft_fail, is_non_consec, is_consec,
}

module _ (fsm : ℕ → FsmState) (p : Node → Bool) where
  -- The steps of a run at a sample with the answers `p`.
  pub data Moves : Run → Run → Type 0 where
    -- another hit, short of the minimum or of the maximum
    again :
        {r : Run}
        → p (fsm r.state).expr ≡ true
        → (suc r.count < (fsm r.state).min_hit) ⊎ (suc r.count < (fsm r.state).max_hit)
        → Moves r (record { state = r.state; count = suc r.count })
    -- enough hits: on to the successor
    onward :
        {r : Run} {t : ℕ}
        → p (fsm r.state).expr ≡ true
        → (fsm r.state).min_hit ≤ suc r.count
        → (fsm r.state).succ_state ≡ some t
        → Moves r (record { state = t; count = 0 })
    -- a miss that a repetition with gaps allows
    wait :
        {r : Run} → p (fsm r.state).expr ≡ false → is_consec (fsm r.state).kind ≡ false → Moves r r
    -- a miss right after a repetition with gaps, which this sample does not hit again
    rest :
        {r : Run} {q : ℕ}
        → p (fsm r.state).expr ≡ false
        → is_consec (fsm r.state).kind ≡ true
        → (fsm r.state).prev_state ≡ some q
        → is_non_consec (fsm q).kind ≡ true
        → p (fsm q).expr ≡ false
        → Moves r r

  -- The run reaches the end of the transition at this sample.
  abbrev pub Finishes : Run → Type 0
  Finishes r =
      (p (fsm r.state).expr ≡ true)
      × ((fsm r.state).min_hit ≤ suc r.count)
      × ((fsm r.state).succ_state ≡ none)

  -- The same as a function: the runs that a run becomes, and whether it finishes.
  unfoldable pub on : Option ℕ → List Run
  on none = []
  on (some t) = record { state = t; count = 0 } ∷ []

  unfoldable pub next_runs : Run → List Run
  next_runs r =
      let s = fsm r.state in
      let n = suc r.count in
      let counted : Run = record { state = r.state; count = n } in
      if p s.expr
      then (if ltb n s.min_hit
          then counted ∷ []
          else if ltb n s.max_hit
          then counted ∷ on s.succ_state
          else on s.succ_state)
      else if is_consec s.kind
      then elim s.prev_state [
        | none ↦ []
        | some q ↦ if is_non_consec (fsm q).kind && not (p (fsm q).expr) then r ∷ [] else []
      ]
      else r ∷ []

  unfoldable pub finishes : Run → Bool
  finishes r =
      p (fsm r.state).expr
      && (leb (fsm r.state).min_hit (suc r.count)
          && elim (fsm r.state).succ_state [ none ↦ true | some t ↦ false ])

  -- what `checkRun` makes of `resultRuns` and `hit`
  unfoldable pub after : Run → Progress → Progress
  after r out = record { result_runs = out.result_runs ++ next_runs r; hit = out.hit || finishes r }

  pub calc_hit-after :
      (r : Run) (out : Progress)
      → p (fsm r.state).expr ≡ true
      → calc_hit (fsm r.state) r out ≡ after r out
  unfolding calc_hit follow after next_runs finishes on
  calc_hit-after r out h =
      let counted : Run = record { state = r.state; count = suc r.count } in
      elim (Option-cases (fsm r.state).succ_state) [
        | inl none_left ↦ ground (arith, append-nil out.result_runs)
        | inr (t, e) ↦ ground (
          arith,
          append_assoc out.result_runs (counted ∷ []) (record { state = t; count = 0 } ∷ []),
        )
      ]

  pub miss-after :
      (r : Run) (out : Progress)
      → p (fsm r.state).expr ≡ false
      → is_consec (fsm r.state).kind ≡ false
      → soft_fail r out ≡ after r out
  unfolding soft_fail after next_runs finishes
  miss-after r out h k = ground arith

  pub rest-after :
      (r : Run) (out : Progress)
      → p (fsm r.state).expr ≡ false
      → is_consec (fsm r.state).kind ≡ true
      → (fsm r.state).prev_state ≡ none
      → out ≡ after r out
  unfolding after next_runs finishes
  rest-after r out h k e = ground (arith, append-nil out.result_runs)

  pub gap-after :
      (r : Run) (q : ℕ) (out : Progress)
      → p (fsm r.state).expr ≡ false
      → is_consec (fsm r.state).kind ≡ true
      → (fsm r.state).prev_state ≡ some q
      → (if is_non_consec (fsm q).kind
          then (if p (fsm q).expr then out else push_back r out)
          else out)
        ≡ after r out
  unfolding after next_runs finishes
  gap-after r q out h k e = ground (arith, append-nil out.result_runs)
