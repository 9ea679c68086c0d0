-- ===== src/Ai/Adversarial/Results.antt =====
-- What an adversarial evaluation answers.
use mathlib.Core.Path.{subst}
use codejudge_ai.Base.{
  ℕ, suc, ◌+◌, ◌*◌, ◌≤◌, ◌<◌, ◌≡◌, ◌⊎◌, inl, inr, refl, arith, Bool, true, false, Option, none,
  some, List, [], ◌∷◌, count, count-le-length, length, String, is_some,
}
use codejudge_ai.Base.Errors.{Result, ok, >>=-eq-ok, ok-injective}
use codejudge_ai.Evaluator.Scoring.Bounds.{rounded-le}
use codejudge_ai.Evaluator.Scoring.{rounded}
use native.Mathlib.Decide.{dec_lt}
use codejudge_ai.Ai.Models.{
  AdversarialResult, AiComponentStatus, GeneratedTestProposal, Payload, ProviderResponse,
}
use codejudge_ai.Ai.Platform.{Platform}
use codejudge_ai.Ai.Judge.{Provider}
use codejudge_ai.Ai.Validation.{ValidationResult, deduplicate_and_validate}
use codejudge_ai.Ai.Validation.Duplicates.{deduplicate_and_validate-length}
use codejudge_ai.Ai.Adversarial.Accounts.{
  Balances, IsSettled, run_test-IsSettled, is_passed, is_failed, is_structurally_valid,
}
use codejudge_ai.Ai.Adversarial.{
  Tally, no_tests, Progress, running, sandbox_unavailable, Sandbox, run_test, run_tests, next_round,
  counted, result_of, robustness_of, AdversarialService, run_validated, run_output, evaluate,
  adversarial_request,
}

no_tests-Balances : Balances 0 0 no_tests
unfolding count
no_tests-Balances = ground arith

-- what a loop over as many tests ends with
abbrev pub IsEnded : ℕ → Progress → Type 0
IsEnded number (running t) = Balances number 0 t
IsEnded number (sandbox_unavailable t) = (n : ℕ) × (n < number) × Balances n 1 t

next_round-IsEnded :
    (number total : ℕ) (continue_with : Tally → Result Progress) (progress last : Progress)
    → number < total
    → ((t : Tally) → Balances (suc number) 0 t → continue_with t ≡ ok last → IsEnded total last)
    → IsSettled number progress
    → next_round continue_with progress ≡ ok last
    → IsEnded total last
unfolding next_round
next_round-IsEnded number total continue_with (running t) last lt f settled e = f t settled e
next_round-IsEnded number total continue_with (sandbox_unavailable t) last lt f settled e =
    subst (IsEnded total) (ok-injective (sandbox_unavailable t) last e) (number, lt, settled)

module _ (p : Platform) (sandbox : Sandbox) (candidate_source reference_source task_id : String)
    (timeout_seconds : ℕ) where
  run_tests-IsEnded :
      (validated : List (GeneratedTestProposal × ValidationResult)) (number total : ℕ) (t : Tally)
      (last : Progress)
      → number + length validated ≡ total
      → Balances number 0 t
      → run_tests p sandbox candidate_source reference_source task_id timeout_seconds number t
          validated
        ≡ ok last
      → IsEnded total last
  unfolding run_tests
  run_tests-IsEnded [] number total t last size b e =
      subst (IsEnded total) (ok-injective (running t) last e) (ground arith)
  run_tests-IsEnded ((proposal, structural) ∷ rest) number total t last size b e =
      let round =
        run_test p proposal sandbox number candidate_source reference_source task_id timeout_seconds
          t structural in
      let continue_with =
        run_tests p sandbox candidate_source reference_source task_id timeout_seconds
          (suc number) in
      let found = >>=-eq-ok round (next_round (λ t'. continue_with t' rest)) e in
      next_round-IsEnded number total (λ t'. continue_with t' rest) found.0 last (omega arith)
        (λ t' b' e'. run_tests-IsEnded rest (suc number) total t' last (omega arith) b' e')
        (run_test-IsSettled p proposal sandbox number candidate_source reference_source task_id
          timeout_seconds t structural found.0 b found.1)
        found.2

abbrev pub is_finished : AiComponentStatus → Bool
is_finished AiComponentStatus.completed = true
is_finished _ = false

-- a robustness score is given exactly when the evaluation is completed
abbrev pub Concludes : AdversarialResult → Option ℕ → Type 0
Concludes r none = (is_finished r.status ≡ false) × (is_some r.reason ≡ true)
Concludes r (some score) =
    (is_finished r.status ≡ true)
    × (score ≤ 10000)
    × (0 < r.reference_valid)
    × (r.candidate_passed + r.candidate_failed ≡ r.reference_valid)
    × (length r.tests ≡ r.generated)

pub record IsAccounted (r : AdversarialResult) : Type 0 where
  pub passed : r.candidate_passed ≡ count is_passed r.tests
  pub failed : r.candidate_failed ≡ count is_failed r.tests
  pub within : r.candidate_passed + r.candidate_failed ≤ r.reference_valid
  pub nested : r.reference_valid ≤ r.structurally_accepted
  pub bounded : r.structurally_accepted ≤ r.generated
  pub concluded : Concludes r r.robustness_score

robustness_of-cases :
    (t : Tally)
    → t.candidate_passed ≤ t.reference_valid
    → (robustness_of t ≡ none)
      ⊎ ((score : ℕ) × (robustness_of t ≡ some score) × (score ≤ 10000) × (0 < t.reference_valid))
unfolding robustness_of
robustness_of-cases t h = elim (dec_lt 0 t.reference_valid) [
  | yes valid ↦
      let score : ℕ = rounded (t.candidate_passed * 10000) t.reference_valid in
      inr (score, ground arith, rounded-le _ 10000 t.reference_valid valid (omega arith), valid)
  | no none_valid ↦ inl (ground arith)
]

module _ (p : Platform) (service : AdversarialService) (payload : Payload)
    (response : ProviderResponse) (generated : ℕ) where
  concluded-running :
      (t : Tally)
      → Balances generated 0 t
      → Concludes (counted p service payload response generated (running t)) (robustness_of t)
  unfolding counted result_of
  concluded-running t b = elim (robustness_of-cases t (ground arith)) [
    | inl e ↦ rw e (refl, refl)
    | inr (score, e, bounded, valid) ↦ rw e (refl, bounded, valid, ground arith, b.answered)
  ]

  counted-IsAccounted :
      (progress : Progress)
      → IsEnded generated progress
      → IsAccounted (counted p service payload response generated progress)
  unfolding counted result_of
  counted-IsAccounted (running t) b = record {
    passed = b.passed;
    failed = ground arith;
    within = ground arith;
    nested = ground arith;
    bounded = omega (arith, b.answered, b.accepted, count-le-length is_structurally_valid t.tests);
    concluded = concluded-running t b;
  }
  counted-IsAccounted (sandbox_unavailable t) (n, lt, b) = record {
    passed = b.passed;
    failed = ground arith;
    within = ground arith;
    nested = ground arith;
    bounded = omega (arith, b.answered, b.accepted, count-le-length is_structurally_valid t.tests);
    concluded = (refl, refl);
  }

module _ (p : Platform) (service : AdversarialService) (payload : Payload) (sandbox : Sandbox)
    (candidate_source reference_source task_id : String) (timeout_seconds : ℕ) where
  run_validated-IsAccounted :
      (response : ProviderResponse) (proposals : List GeneratedTestProposal)
      (validation : Option String × List (GeneratedTestProposal × ValidationResult))
      (r : AdversarialResult)
      → (validation.0 ≡ none → length validation.1 ≡ length proposals)
      → run_validated p service payload sandbox candidate_source reference_source task_id
          timeout_seconds response
          (length proposals)
          validation
        ≡ ok r
      → IsAccounted r
  unfolding run_validated
  run_validated-IsAccounted response proposals (some message, _) r h e = absurd (cc)
  run_validated-IsAccounted response proposals (none, validated) r h e =
      let total : ℕ = length proposals in
      let loop =
        run_tests p sandbox candidate_source reference_source task_id timeout_seconds 0 no_tests
          validated in
      let result = counted p service payload response total in
      let found = >>=-eq-ok loop (λ progress. ok (result progress)) e in
      subst IsAccounted (ok-injective (result found.0) r found.2) (
        counted-IsAccounted p service payload response total found.0 (
          run_tests-IsEnded p sandbox candidate_source reference_source task_id timeout_seconds
            validated 0 total no_tests found.0 (omega (arith, h refl)) no_tests-Balances found.1))

  run_output-IsAccounted :
      (response : ProviderResponse) (parsed : Option (List GeneratedTestProposal))
      (r : AdversarialResult)
      → run_output p service payload sandbox candidate_source reference_source task_id
          timeout_seconds response parsed
        ≡ ok r
      → IsAccounted r
  unfolding run_output
  run_output-IsAccounted response none r e = absurd (cc)
  run_output-IsAccounted response (some proposals) r e =
      run_validated-IsAccounted response proposals
        (deduplicate_and_validate p proposals service.max_tests) r
        (deduplicate_and_validate-length p proposals service.max_tests) e

  -- The counters of every adversarial result agree with its artifacts: as many passed and failed as
  -- the artifacts say, no more of them than the reference passed, no more of these than were
  -- accepted, and no more of these than were generated. It has a robustness score, of at most 100,
  -- exactly when it is completed, and then the reference passed some test, each of these passed or
  -- failed, and every generated test has an artifact; otherwise it has a reason.
  pub evaluate-IsAccounted :
      (call : ℕ) (provider : Provider) (r : AdversarialResult)
      → evaluate p service payload sandbox candidate_source reference_source task_id timeout_seconds
          call provider
        ≡ ok r
      → IsAccounted r
  unfolding evaluate
  evaluate-IsAccounted call provider r e =
      let answered = λ (response : ProviderResponse).
        run_output p service payload sandbox candidate_source reference_source task_id
          timeout_seconds response (p.parse_tests response.content) in
      let found = >>=-eq-ok (provider call (adversarial_request p service payload)) answered e in
      run_output-IsAccounted found.0 (p.parse_tests found.0.content) r found.2
