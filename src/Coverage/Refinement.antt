-- ===== src/Coverage/Refinement.antt =====
-- A sample of a transition bin of crave/src/crave/experimental/CoverageBins.hpp, against the step
-- relation; and the evaluator of Ir/Eval as the test of a bin.
use mathlib.Core.List.{Memᴰ}
use mathlib.Core.List.Memᴰ
use crave.Prelude.{
  ℕ, suc, ◌%◌, ◌^◌, ◌≡◌, refl, inl, inr, ◌↔◌, [], Bool, true, false, arith, Bool-cases,
}
use crave.Prelude.Result.{Result, ok}
use crave.Ir.{Node, Constant}
use crave.Ir.Eval.{Evaluator, evaluate}
use crave.Ir.Eval.Value.{truth}
use crave.Ir.Eval.Meaning.{Means, Covers, evaluate-Means}
use crave.Coverage.{FsmState, Run, Progress, TransitionBin, sample, increment_hit, holds}
use crave.Coverage.Steps.{Moves, Finishes}
use crave.Coverage.Sample.{
  Answers, Advanced, advanced, advanced_iff, after_all, after_all-runs, after_all-hit, close,
  sample-after,
}

-- What one sample does to a bin, when the tests of its states have the answers `p`.
pub record IsSampled (fsm : ℕ → FsmState) (p : Node → Bool) (b b' : TransitionBin) : Type 0 where
  -- The runs are those that a step leads to from a run of before, or from one that starts.
  pub runs : (r' : Run) → Memᴰ r' b'.runs ↔ ((r : Run) × Advanced fsm p b r × Moves fsm p r r')
  -- One hit is counted, however many runs reach the end; none, where no run does.
  pub counted :
      (r : Run) × Advanced fsm p b r × Finishes fsm p r → b'.hit_count ≡ suc b.hit_count % 2 ^ 32
  pub uncounted : ¬ ((r : Run) × Advanced fsm p b r × Finishes fsm p r) → b'.hit_count ≡ b.hit_count
  pub same_root : b'.root ≡ b.root

module _ (fsm : ℕ → FsmState) (p : Node → Bool) (b : TransitionBin) where
  abbrev none_yet : Progress
  none_yet = record { result_runs = []; hit = false }

  close-IsSampled : IsSampled fsm p b (close fsm p b (after_all fsm p (advanced fsm p b) none_yet))
  unfolding increment_hit
  close-IsSampled =
      let rs = advanced fsm p b in
      record {
        runs = λ r'.
            let (to, from) = after_all-runs fsm p rs none_yet r' in
            (
              λ m. elim (to m) [
                | inl k ↦ absurd (Memᴰ.not-nil k)
                | inr (r, k, d) ↦ (r, (advanced_iff fsm p b r).0 k, d)
              ],
              λ (r, k, d). from (inr (r, (advanced_iff fsm p b r).1 k, d)),
            );
        counted = λ (r, k, d).
            let h : (after_all fsm p rs none_yet).hit ≡ true =
              (after_all-hit fsm p rs none_yet).1 (inr (r, (advanced_iff fsm p b r).1 k, d)) in
            rw h refl;
        uncounted = λ n. elim (Bool-cases (after_all fsm p rs none_yet).hit) [
          | inr h ↦ rw h refl
          | inl h ↦ elim ((after_all-hit fsm p rs none_yet).0 h) [
            | inl k ↦ absurd (ground arith)
            | inr (r, k, d) ↦ absurd (n (r, (advanced_iff fsm p b r).0 k, d))
          ]
        ];
        same_root = ground arith;
      }

-- A sample returns, and does to the bin what the step relation says.
pub sample-IsSampled :
    {E : Type 0} (test : Node → E → Result (Bool × E)) (fsm : ℕ → FsmState) (p : Node → Bool)
    (Good : E → Type 0) (b : TransitionBin) (e : E)
    → Answers test fsm p Good
    → Good e
    → (b' : TransitionBin) × (e' : E) × (sample test fsm b e ≡ ok (b', e'))
      × Good e'
      × IsSampled fsm p b b'
sample-IsSampled test fsm p Good b e answers g =
    let (e', t, g') = sample-after test fsm p Good answers b e g in
    (
      close fsm p b (after_all fsm p (advanced fsm p b) (none_yet fsm p b)),
      e',
      t,
      g',
      close-IsSampled fsm p b,
    )

holds_of :
    (raw_id : Node → ℕ) (n : Node) (ev ev' : Evaluator) (c : Constant) (b : Bool)
    → evaluate raw_id n ev ≡ ok (true, ev')
    → ev'.result ≡ c
    → b ≡ truth c
    → holds raw_id n ev ≡ ok (b, ev')
unfolding holds
holds_of raw_id n ev ev' c b e v q = rw (e, v, q) refl

-- Where the variables of all the states' expressions are assigned and the expressions have values,
-- the evaluator answers whether these are not 0, at this sample and for as long as it only evaluates.
pub holds-Answers :
    (raw_id : Node → ℕ) (env : ℕ → Constant) (fsm : ℕ → FsmState) (p : Node → Bool)
    → ((i : ℕ) → (c : Constant) × Means env (fsm i).expr c × (p (fsm i).expr ≡ truth c))
    → Answers (holds raw_id) fsm p (λ ev. (i : ℕ) → Covers env ev.store.map (fsm i).expr)
holds-Answers raw_id env fsm p means i ev g =
    let (c, d, q) = means i in
    let (ev', e, v, s, k) = evaluate-Means raw_id env (fsm i).expr c ev d (g i) in
    (
      ev',
      holds_of raw_id (fsm i).expr ev ev' c (p (fsm i).expr) e v q,
      λ j v h. k v (env v) (g j v h),
    )
