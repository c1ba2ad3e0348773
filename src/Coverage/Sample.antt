-- ===== src/Coverage/Sample.antt =====
-- One sample of a transition bin of crave/src/crave/experimental/CoverageBins.hpp, against the step
-- relation of Coverage/Steps.
use mathlib.Core.List.{append-nil, Memᴰ}
use mathlib.Core.List.Memᴰ
use crave.Prelude.{
  ℕ, ◌≡◌, refl, ◌⊎◌, inl, inr, ◌↔◌, List, [], ◌∷◌, ◌++◌, Bool, true, false, if◌then◌else◌, arith,
  Bool-cases, Option-cases,
}
use crave.Prelude.Result.{Result, ok}
use crave.Ir.{Node}
use crave.Coverage.{
  FsmState, Run, Progress, TransitionBin, is_non_consec, is_consec, hard_fail, check_run,
  check_runs, sample, increment_hit,
}
use crave.Coverage.Moves.{next_runs_iff, finishes_iff}
use crave.Coverage.Steps.{
  Moves, Finishes, next_runs, after, calc_hit-after, miss-after, rest-after, gap-after,
}

-- At one sample the test has the answers `p`, and leaves the evaluator in a state where it has them
-- still.
abbrev pub Answers :
    {E : Type 0}
    → (Node → E → Result (Bool × E))
    → (ℕ → FsmState)
    → (Node → Bool)
    → (E → Type 0)
    → Type 0
Answers {E} test fsm p Good =
    (i : ℕ) (e : E) → Good e → (e' : E) × (test (fsm i).expr e ≡ ok (p (fsm i).expr, e')) × Good e'

module _ (fsm : ℕ → FsmState) (p : Node → Bool) where
  -- all runs after one another
  pub after_all : List Run → Progress → Progress
  after_all [] out = out
  after_all (r ∷ rs) out = after_all rs (after fsm p r out)

  -- The runs that a sample advances: those there are, and one that starts where the root holds.
  abbrev pub Advanced : TransitionBin → Run → Type 0
  Advanced b r =
      Memᴰ r b.runs ⊎ ((p (fsm b.root).expr ≡ true) × (r ≡ record { state = b.root; count = 0 }))

  pub advanced : TransitionBin → List Run
  advanced b =
      b.runs ++ (if p (fsm b.root).expr then record { state = b.root; count = 0 } ∷ [] else [])

  after_all-append :
      (xs ys : List Run) (out : Progress)
      → after_all (xs ++ ys) out ≡ after_all ys (after_all xs out)
  unfolding after_all
  after_all-append [] ys out = refl
  after_all-append (x ∷ xs) ys out = after_all-append xs ys (after fsm p x out)

  -- what a sample leaves of a bin
  abbrev pub close : TransitionBin → Progress → TransitionBin
  close b done = record (if done.hit then increment_hit b else b) { runs = done.result_runs }

  pub after_all-runs :
      (rs : List Run) (out : Progress) (r' : Run)
      → Memᴰ r' (after_all rs out).result_runs
        ↔ (Memᴰ r' out.result_runs ⊎ ((r : Run) × Memᴰ r rs × Moves fsm p r r'))
  unfolding after_all after
  after_all-runs [] out r' =
      (λ m. inl m, λ c. elim c [ inl m ↦ m | inr (r, k, d) ↦ absurd (Memᴰ.not-nil k) ])
  after_all-runs (x ∷ xs) out r' = (
    λ m. elim ((after_all-runs xs (after fsm p x out) r').0 m) [
      | inl k ↦ (elim (Memᴰ.append_cases out.result_runs k) [
        | inl old ↦ inl old
        | inr new ↦ inr (x, Memᴰ.head refl, (next_runs_iff fsm p x r').0 new)
      ])
      | inr (r, k, d) ↦ inr (r, Memᴰ.tail k, d)
    ],
    λ c. (after_all-runs xs (after fsm p x out) r').1 (elim c [
      | inl old ↦ inl (Memᴰ.append_left (next_runs fsm p x) old)
      | inr (r, k, d) ↦ (elim (Memᴰ.cases_cons k) [
        | inl q ↦ inl (Memᴰ.append_right out.result_runs ((next_runs_iff fsm p x r').1 (rw q at d)))
        | inr later ↦ inr (r, later, d)
      ])
    ]),
  )

  pub after_all-hit :
      (rs : List Run) (out : Progress)
      → ((after_all rs out).hit ≡ true)
        ↔ ((out.hit ≡ true) ⊎ ((r : Run) × Memᴰ r rs × Finishes fsm p r))
  unfolding after_all after
  after_all-hit [] out =
      (λ h. inl h, λ c. elim c [ inl h ↦ h | inr (r, k, d) ↦ absurd (Memᴰ.not-nil k) ])
  after_all-hit (x ∷ xs) out = (
    λ h. elim ((after_all-hit xs (after fsm p x out)).0 h) [
      | inl k ↦ (elim (Bool-cases out.hit) [
        | inl old ↦ inl old
        | inr new ↦ inr (x, Memᴰ.head refl, (finishes_iff fsm p x).0 (ground arith))
      ])
      | inr (r, k, d) ↦ inr (r, Memᴰ.tail k, d)
    ],
    λ c. (after_all-hit xs (after fsm p x out)).1 (elim c [
      | inl old ↦ inl (ground arith)
      | inr (r, k, d) ↦ (elim (Memᴰ.cases_cons k) [
        | inl q ↦ let f = (finishes_iff fsm p x).1 (rw q at d) in inl (ground arith)
        | inr later ↦ inr (r, later, d)
      ])
    ]),
  )

  pub advanced_iff : (b : TransitionBin) (r : Run) → Memᴰ r (advanced b) ↔ Advanced b r
  unfolding advanced
  advanced_iff b r = elim (Bool-cases (p (fsm b.root).expr)) [
    | inl starts ↦ (
      λ m. elim (Memᴰ.append_cases b.runs (rw (advanced, starts) at m)) [
        | inl old ↦ inl old
        | inr new ↦ inr (starts, Memᴰ.eq_of_singleton new)
      ],
      λ c.
          rw (advanced, starts)
            (elim c [
              | inl old ↦ Memᴰ.append_left (record { state = b.root; count = 0 } ∷ []) old
              | inr (_, q) ↦ Memᴰ.append_right b.runs (Memᴰ.head q)
            ]),
    )
    | inr idle ↦ (
      λ m. inl (rw (append-nil b.runs) at (rw (advanced, idle) at m)),
      λ c.
          rw (advanced, idle, append-nil b.runs)
            (elim c [ inl old ↦ old | inr (s, _) ↦ absurd (ground arith) ]),
    )
  ]

module _ {E : Type 0} (test : Node → E → Result (Bool × E)) (fsm : ℕ → FsmState) (p : Node → Bool)
    (Good : E → Type 0) (answers : Answers test fsm p Good) where
  hard_fail-after :
      (r : Run) (out : Progress) (e : E)
      → Good e
      → p (fsm r.state).expr ≡ false
      → is_consec (fsm r.state).kind ≡ true
      → (e' : E) × (hard_fail test fsm r out e ≡ ok (after fsm p r out, e')) × Good e'
  unfolding hard_fail
  hard_fail-after r out e g h k = elim (Option-cases (fsm r.state).prev_state) [
    | inl first ↦ (e, rw (first, hard_fail) (rw (← rest-after fsm p r out h k first) refl), g)
    | inr (q, s) ↦ elim (Bool-cases (is_non_consec (fsm q).kind)) [
      | inr tight ↦
          let same = rw tight at (gap-after fsm p r q out h k s) in
          (e, rw (s, hard_fail, tight) (rw (← same) refl), g)
      | inl gap ↦
          let same = rw gap at (gap-after fsm p r q out h k s) in
          let (e2, t2, g2) = answers q e g in
          (e2, rw (s, hard_fail, gap, t2) (rw (← same) refl), g2)
    ]
  ]

  check_run-after :
      (r : Run) (out : Progress) (e : E)
      → Good e
      → (e' : E) × (check_run test fsm r out e ≡ ok (after fsm p r out, e')) × Good e'
  unfolding check_run
  check_run-after r out e g =
      let (e1, t1, g1) = answers r.state e g in
      elim (Bool-cases (p (fsm r.state).expr)) [
        | inl hit ↦ (e1, rw (t1, hit) (rw (calc_hit-after fsm p r out hit) refl), g1)
        | inr miss ↦ elim (Bool-cases (is_consec (fsm r.state).kind)) [
          | inr soft ↦ (e1, rw (t1, miss, soft) (rw (miss-after fsm p r out miss soft) refl), g1)
          | inl hard ↦
              let (e2, t2, g2) = hard_fail-after r out e1 g1 miss hard in
              (e2, rw (t1, miss, hard) t2, g2)
        ]
      ]

  check_runs-after :
      (rs : List Run) (out : Progress) (e : E)
      → Good e
      → (e' : E) × (check_runs test fsm rs out e ≡ ok (after_all fsm p rs out, e')) × Good e'
  unfolding check_runs after_all
  check_runs-after [] out e g = (e, refl, g)
  check_runs-after (r ∷ rs) out e g =
      let (e1, t1, g1) = check_run-after r out e g in
      let (e2, t2, g2) = check_runs-after rs (after fsm p r out) e1 g1 in (e2, rw t1 t2, g2)

  pub sample-after :
      (b : TransitionBin) (e : E)
      → Good e
      → (e' : E) × (sample test fsm b e
          ≡ ok (
            close fsm p b
                (after_all fsm p (advanced fsm p b) (record { result_runs = []; hit = false })),
            e',
          ))
        × Good e'
  unfolding sample advanced after_all
  sample-after b e g =
      let none_yet : Progress = record { result_runs = []; hit = false } in
      let begin : Run = record { state = b.root; count = 0 } in
      let (e1, t1, g1) = check_runs-after b.runs none_yet e g in
      let (e2, t2, g2) = answers b.root e1 g1 in
      elim (Bool-cases (p (fsm b.root).expr)) [
        | inl starts ↦
            let (e3, t3, g3) = check_run-after begin (after_all fsm p b.runs none_yet) e2 g2 in
            (
              e3,
              rw (t1, t2, starts, t3)
                  (rw (after_all-append fsm p b.runs (begin ∷ []) none_yet) refl),
              g3,
            )
        | inr idle ↦ (e2, rw (t1, t2, idle) (rw (append-nil b.runs) refl), g2)
      ]
