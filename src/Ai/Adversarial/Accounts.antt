-- ===== src/Ai/Adversarial/Accounts.antt =====
-- The counters of an adversarial result agree with its artifacts.
use mathlib.Core.Path.{subst}
use codejudge_ai.Base.{
  ℕ, suc, ◌+◌, ◌-◌, ◌≤◌, ◌≡◌, refl, arith, Bool, true, false, Option, none, some, [], ◌∷◌, count,
  length, length-append, count-append, if-cases, if-elim, String, is_some, if◌then◌else◌,
}
use codejudge_ai.Base.Errors.{ok, ◌>>=◌, >>=-eq-ok, ok-injective}
use codejudge_ai.Ai.Models.{AdversarialTestArtifact, GeneratedTestProposal}
use codejudge_ai.Ai.Platform.{Platform}
use codejudge_ai.Ai.Validation.{ValidationResult}
use codejudge_ai.Evaluator.Models.{RunnerResult}
use codejudge_ai.Ai.Adversarial.{
  successful_test_run, run_rejection_reason, Tally, Progress, candidate, reference, running,
  sandbox_unavailable, Sandbox, artifact, add, after_candidate, after_reference, run_test,
}

abbrev pub is_passed : AdversarialTestArtifact → Bool
is_passed a = elim a.candidate_passed [ some true ↦ true | _ ↦ false ]

abbrev pub is_failed : AdversarialTestArtifact → Bool
is_failed a = elim a.candidate_passed [ some false ↦ true | _ ↦ false ]

abbrev pub is_structurally_valid : AdversarialTestArtifact → Bool
is_structurally_valid a = a.structurally_valid

abbrev pub is_reference_valid : AdversarialTestArtifact → Bool
is_reference_valid a = a.reference_valid

-- The counters after a number of tests, with `open` of them run on the reference but not counted as
-- passed or failed.
pub record Balances (number open_ : ℕ) (t : Tally) : Type 0 where
  pub answered : length t.tests ≡ number
  pub accepted : t.structurally_accepted ≡ count is_structurally_valid t.tests + open_
  pub valid : t.reference_valid ≡ count is_reference_valid t.tests + open_
  pub passed : t.candidate_passed ≡ count is_passed t.tests
  pub split : count is_reference_valid t.tests ≡ count is_passed t.tests + count is_failed t.tests
  pub nested : count is_reference_valid t.tests ≤ count is_structurally_valid t.tests

abbrev pub IsSettled : ℕ → Progress → Type 0
IsSettled number (running t) = Balances (suc number) 0 t
IsSettled number (sandbox_unavailable t) = Balances number 1 t

-- how an artifact is counted
abbrev IsPlain : AdversarialTestArtifact → Type 0
IsPlain a =
    (a.reference_valid ≡ true → a.structurally_valid ≡ true)
    × (is_some a.candidate_passed ≡ a.reference_valid)

add-Balances :
    (number accepted valid passed : ℕ) (t : Tally) (a : AdversarialTestArtifact)
    → Balances number 0 t
    → IsPlain a
    → accepted ≡ t.structurally_accepted + (if a.structurally_valid then 1 else 0)
    → valid ≡ t.reference_valid + (if a.reference_valid then 1 else 0)
    → passed ≡ t.candidate_passed + (if is_passed a then 1 else 0)
    → Balances (suc number) 0 (
        add
          (record t {
            structurally_accepted = accepted;
            reference_valid = valid;
            candidate_passed = passed;
          })
          a)
unfolding add count
add-Balances number accepted valid passed t a b plain e f g = ground (
  arith,
  length-append t.tests (a ∷ []),
  count-append is_structurally_valid t.tests (a ∷ []),
  count-append is_reference_valid t.tests (a ∷ []),
  count-append is_passed t.tests (a ∷ []),
  count-append is_failed t.tests (a ∷ []),
  plain.0,
  plain.1,
)

module _ (p : Platform) (proposal : GeneratedTestProposal) where
  after_candidate-IsSettled :
      (number : ℕ) (t : Tally) (r : RunnerResult)
      → Balances number 1 t
      → IsSettled number (after_candidate p proposal t r)
  unfolding after_candidate artifact
  after_candidate-IsSettled number t r b =
      let before : Tally = record t {
        structurally_accepted = t.structurally_accepted - 1;
        reference_valid = t.reference_valid - 1;
      } in
      let balanced : Balances number 0 before = ground arith in
      let candidate_ok : Bool = successful_test_run r in
      let reason : Option String =
        if candidate_ok then none else some (run_rejection_reason r "candidate") in
      let last = artifact p proposal true true (some candidate_ok) reason in
      let passed : ℕ = t.candidate_passed + (if candidate_ok then 1 else 0) in
      if-elim (IsSettled number) (is_some r.infrastructure_error) (sandbox_unavailable t)
        (running (add (record t { candidate_passed = passed }) last)) b
        (add-Balances number t.structurally_accepted t.reference_valid passed before last balanced
          ((λ _. refl), refl) (ground arith) (ground arith) (ground arith))

  module _ (sandbox : Sandbox) (number : ℕ) (candidate_source reference_source task_id : String)
      (timeout_seconds : ℕ) where
    after_reference-IsSettled :
        (t : Tally) (r : RunnerResult) (progress : Progress)
        → Balances number 0 t
        → after_reference p proposal sandbox number candidate_source reference_source task_id
            timeout_seconds
            (record t { structurally_accepted = t.structurally_accepted + 1 })
            r
          ≡ ok progress
        → IsSettled number progress
    unfolding after_reference
    after_reference-IsSettled t r progress b e =
        let t' = record t { structurally_accepted = t.structurally_accepted + 1 } in
        let counted = record t' { reference_valid = t.reference_valid + 1 } in
        let balanced : Balances number 1 counted = ground arith in
        let run = sandbox candidate number candidate_source proposal.code task_id timeout_seconds in
        let last =
          artifact p proposal true false none (some (run_rejection_reason r "reference")) in
        if-cases (successful_test_run r) (run >>= λ s. ok (after_candidate p proposal counted s))
          (ok (running (add t' last))) (ok progress) e
          (λ _ h.
            let found = >>=-eq-ok run (λ s. ok (after_candidate p proposal counted s)) h in
            subst (IsSettled number)
              (ok-injective (after_candidate p proposal counted found.0) progress found.2)
              (after_candidate-IsSettled number counted found.0 balanced))
          (λ _ h. subst (IsSettled number) (ok-injective (running (add t' last)) progress h) (
            add-Balances number (t.structurally_accepted + 1) t.reference_valid t.candidate_passed t
              last b ((λ _. refl), refl) refl (omega arith) (omega arith)))

    pub run_test-IsSettled :
        (t : Tally) (structural : ValidationResult) (progress : Progress)
        → Balances number 0 t
        → run_test p proposal sandbox number candidate_source reference_source task_id
            timeout_seconds t structural
          ≡ ok progress
        → IsSettled number progress
    unfolding run_test
    run_test-IsSettled t structural progress b e =
        let t' = record t { structurally_accepted = t.structurally_accepted + 1 } in
        let run = sandbox reference number reference_source proposal.code task_id timeout_seconds in
        let after =
          after_reference p proposal sandbox number candidate_source reference_source task_id
            timeout_seconds t' in
        let last = artifact p proposal false false none structural.reason in
        if-cases structural.accepted (run >>= after) (ok (running (add t last))) (ok progress) e
          (λ _ h.
            let found = >>=-eq-ok run after h in
            after_reference-IsSettled t found.0 progress b found.2)
          (λ _ h. subst (IsSettled number) (ok-injective (running (add t last)) progress h) (
            add-Balances number t.structurally_accepted t.reference_valid t.candidate_passed t last
              b ((λ h'. h'), refl) (omega arith) (omega arith) (omega arith)))
