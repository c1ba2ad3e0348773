-- ===== src/Coverage/Moves.antt =====
-- The function on runs of Coverage/Steps, against the step relation there.
use mathlib.Core.List.{Memᴰ}
use mathlib.Core.List.Memᴰ
use crave.Prelude.{
  ℕ, suc, ◌≤◌, ◌≡◌, refl, inl, inr, ◌↔◌, Bool, true, false, not, ◌&&◌, ltb, arith, Bool-cases,
  Option-cases,
}
use crave.Ir.{Node}
use crave.Coverage.{FsmState, Run, is_non_consec, is_consec}
use crave.Coverage.Steps.{Moves, again, onward, wait, rest, Finishes, next_runs, on, finishes}

module _ (fsm : ℕ → FsmState) (p : Node → Bool) where
  on-Moves :
      (r r' : Run)
      → p (fsm r.state).expr ≡ true
      → (fsm r.state).min_hit ≤ suc r.count
      → Memᴰ r' (on fsm p (fsm r.state).succ_state)
      → Moves fsm p r r'
  unfolding on
  on-Moves r r' hit enough m = elim (Option-cases (fsm r.state).succ_state) [
    | inl last ↦ absurd (Memᴰ.not-nil (rw (last, on) at m))
    | inr (t, e) ↦ let q = Memᴰ.eq_of_singleton (rw (e, on) at m) in rw q (onward hit enough e)
  ]

  hit-Moves :
      (r r' : Run) → p (fsm r.state).expr ≡ true → Memᴰ r' (next_runs fsm p r) → Moves fsm p r r'
  unfolding next_runs
  hit-Moves r r' hit m = elim (Bool-cases (ltb (suc r.count) (fsm r.state).min_hit)) [
    | inl low ↦
        let q = Memᴰ.eq_of_singleton (rw (next_runs, hit, low) at m) in
        rw q (again hit (inl (ground arith)))
    | inr enough ↦ elim (Bool-cases (ltb (suc r.count) (fsm r.state).max_hit)) [
      | inl more ↦ elim (Memᴰ.cases_cons (rw (next_runs, hit, enough, more) at m)) [
        | inl q ↦ rw q (again hit (inr (ground arith)))
        | inr k ↦ on-Moves r r' hit (ground arith) k
      ]
      | inr full ↦ on-Moves r r' hit (ground arith) (rw (next_runs, hit, enough, full) at m)
    ]
  ]

  miss-Moves :
      (r r' : Run) → p (fsm r.state).expr ≡ false → Memᴰ r' (next_runs fsm p r) → Moves fsm p r r'
  unfolding next_runs
  miss-Moves r r' miss m = elim (Bool-cases (is_consec (fsm r.state).kind)) [
    | inr soft ↦
        let q = Memᴰ.eq_of_singleton (rw (next_runs, miss, soft) at m) in rw q (wait miss soft)
    | inl hard ↦ elim (Option-cases (fsm r.state).prev_state) [
      | inl first ↦ absurd (Memᴰ.not-nil (rw (next_runs, miss, hard, first) at m))
      | inr (q, e) ↦ (elim (Bool-cases (is_non_consec (fsm q).kind && not (p (fsm q).expr))) [
        | inr over ↦ absurd (Memᴰ.not-nil (rw (next_runs, miss, hard, e, over) at m))
        | inl gap ↦
            let s = Memᴰ.eq_of_singleton (rw (next_runs, miss, hard, e, gap) at m) in
            rw s (rest miss hard e (ground arith) (ground arith))
      ])
    ]
  ]

  Moves-next_runs : (r r' : Run) → Moves fsm p r r' → Memᴰ r' (next_runs fsm p r)
  unfolding next_runs on
  Moves-next_runs r _ (again hit (inl low)) =
      let l : ltb (suc r.count) (fsm r.state).min_hit ≡ true = ground arith in
      rw (hit, l) (Memᴰ.head refl)
  Moves-next_runs r _ (again hit (inr more)) =
      let m : ltb (suc r.count) (fsm r.state).max_hit ≡ true = ground arith in
      elim (Bool-cases (ltb (suc r.count) (fsm r.state).min_hit)) [
        | inl low ↦ rw (hit, low) (Memᴰ.head refl)
        | inr enough ↦ rw (hit, enough, m) (Memᴰ.head refl)
      ]
  Moves-next_runs r _ (onward hit enough e) =
      let l : ltb (suc r.count) (fsm r.state).min_hit ≡ false = ground arith in
      elim (Bool-cases (ltb (suc r.count) (fsm r.state).max_hit)) [
        | inl more ↦ rw (hit, l, more, e) (Memᴰ.tail (Memᴰ.head refl))
        | inr full ↦ rw (hit, l, full, e) (Memᴰ.head refl)
      ]
  Moves-next_runs r _ (wait miss soft) = rw (miss, soft) (Memᴰ.head refl)
  Moves-next_runs r _ (rest miss hard e k n) = rw (miss, hard, e, k, n) (Memᴰ.head refl)

  -- The function and the relation agree.
  pub next_runs_iff : (r r' : Run) → Memᴰ r' (next_runs fsm p r) ↔ Moves fsm p r r'
  next_runs_iff r r' = (
    λ m. elim (Bool-cases (p (fsm r.state).expr)) [
      | inl hit ↦ hit-Moves r r' hit m
      | inr miss ↦ miss-Moves r r' miss m
    ],
    Moves-next_runs r r',
  )

  pub finishes_iff : (r : Run) → (finishes fsm p r ≡ true) ↔ Finishes fsm p r
  unfolding finishes
  finishes_iff r = elim (Option-cases (fsm r.state).succ_state) [
    | inl last ↦ (λ h. (ground arith, ground arith, last), λ h. ground arith)
    | inr (t, e) ↦ (λ h. absurd (ground arith), λ h. ground arith)
  ]
