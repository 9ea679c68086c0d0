-- ===== src/Ai/Service/Trust.antt =====
-- Every assessment can be trusted, whatever the provider, the sandbox and the files answer.
use codejudge_ai.Base.{
  ℕ, ◌≤◌, ◌<◌, ◌≡◌, refl, ap, arith, true, false, not, ◌&&◌, ◌||◌, Option, none, some, List,
  All-empty, All-map, length, String, is_some, ltb, ◌==◌, if-elim,
}
use codejudge_ai.Base.Errors.{Result, ok, ◌>>=◌}
use codejudge_ai.Ai.Models.{
  AiStatus, JudgeResult, AdversarialResult, AiAssessment, AiIdentity, EvaluationSnapshot,
  RegisteredTask, judge_payload, adversarial_payload,
}
use codejudge_ai.Ai.Platform.{Platform}
use codejudge_ai.Ai.Judge.{Provider, JudgeService}
use codejudge_ai.Ai.Adversarial.{Sandbox}
use codejudge_ai.Ai.Adversarial.Results.{IsAccounted, is_finished}
use codejudge_ai.Ai.Service.Identity.{
  AiService, assessment, early, identity, is_mismatch, expected_or,
}
use codejudge_ai.Ai.Service.Outcomes.{
  conclusion, judgement, has_completed, is_completed, results_of, errors_of, source_lines,
}
use codejudge_ai.Ai.Service.Assessment.{
  is_disputed, Agrees, IsTrustworthy, early-IsTrustworthy, Aggregates, judgement-Aggregates,
  conclusion-is_completed, conclusion-is_disputed, conclusion-is_untouched, ai_score_of-is_some,
  ai_score_of-AtMost100,
}
use codejudge_ai.Ai.Service.Judges.{IsInBounds, run_judges-IsInBounds, run_adversarial-IsAccounted}
use codejudge_ai.Ai.Service.{
  conclude, assess, run_assessment, run_judges, run_adversarial, too_large,
}

has_completed-is_some :
    (r : AdversarialResult)
    → has_completed r ≡ true
    → (is_some r.robustness_score ≡ true) × (is_finished r.status ≡ true)
has_completed-is_some r h = ground arith

module _ (p : Platform) (service : AiService) (provider : Provider) (sandbox : Sandbox)
    (snapshot : EvaluationSnapshot) (ai_identity : AiIdentity) (results : List JudgeResult)
    (errors : List String) (adversarial : AdversarialResult) (a : IsAccounted adversarial)
    (configured : 0 < length service.judge_models) where
  conclude-IsTrustworthy :
      (scores : Option (ℕ × ℕ))
      → Aggregates results scores
      → IsTrustworthy service (
          conclude p service provider sandbox snapshot ai_identity results errors adversarial
            scores)
  unfolding conclude assessment
  conclude-IsTrustworthy none g =
      let all_valid =
        length results == length service.judge_models && not (ltb 0 (length errors)) in
      let valid = has_completed adversarial in
      let status = (conclusion false all_valid valid results errors adversarial).0 in
      let done = conclusion-is_completed false all_valid valid results errors adversarial in
      let unfinished : is_completed status ≡ false = ground (arith, done) in
      record {
        scored =
            ai_score_of-is_some status none adversarial.robustness_score
              (λ h. absurd (ground arith)) (λ h. absurd (ground arith));
        disputes = conclusion-is_disputed false all_valid valid results errors adversarial;
        above = refl;
        final = ai_score_of-AtMost100 status none adversarial.robustness_score;
        judges = tt;
        spread = tt;
        near = All-empty (Agrees none) results g;
        complete = λ h. absurd (ground arith);
        untouched = λ h. absurd (
            ground
              (arith, conclusion-is_untouched false all_valid valid results errors adversarial));
      }
  conclude-IsTrustworthy (some (score, spread)) g =
      let disputed = ltb service.disagreement_threshold spread in
      let all_valid =
        length results == length service.judge_models && not (ltb 0 (length errors)) in
      let valid = has_completed adversarial in
      let status = (conclusion disputed all_valid valid results errors adversarial).0 in
      let done = conclusion-is_completed disputed all_valid valid results errors adversarial in
      let robust = has_completed-is_some adversarial in
      record {
        scored =
            ai_score_of-is_some status (some (score, spread)) adversarial.robustness_score
              (λ _. refl) (λ h. (robust (ground (arith, done))).0);
        disputes = conclusion-is_disputed disputed all_valid valid results errors adversarial;
        above = refl;
        final = ai_score_of-AtMost100 status (some (score, spread)) adversarial.robustness_score;
        judges = g.1;
        spread = g.2;
        near = g.0;
        complete = λ h. (ground (arith, done), ((robust (ground (arith, done))).1, a));
        untouched = λ h. absurd (
            ground
              (arith, conclusion-is_untouched disputed all_valid valid results errors adversarial));
      }

module _ (p : Platform) (service : AiService) (provider : Provider) (sandbox : Sandbox)
    (positive : 0 < p.units) (configured : 0 < length service.judge_models)
    (snapshot : EvaluationSnapshot) (task : RegisteredTask) where
  abbrev Promised : Result AiAssessment → Type 0
  Promised answer = (a : AiAssessment) × (answer ≡ ok a) × IsTrustworthy service a

  run_assessment-Promised :
      (ai_identity : AiIdentity) (judges : JudgeService)
      → Promised (run_assessment p service provider sandbox snapshot task ai_identity judges)
  unfolding run_assessment
  run_assessment-Promised ai_identity judges =
      let judge_input = judge_payload task.specification snapshot.evidence snapshot.source_text in
      let adversarial_input =
        adversarial_payload task.specification snapshot.evidence snapshot.source_text in
      let lines = source_lines snapshot.source_text in
      let outcomes =
        run_judges p service provider sandbox judges judge_input lines 0 service.judge_models in
      let results = results_of outcomes in
      let errors = errors_of outcomes in
      let adversarial =
        run_adversarial p service provider sandbox task adversarial_input snapshot.source_text in
      let accounted =
        run_adversarial-IsAccounted p service provider sandbox task adversarial_input
          snapshot.source_text in
      let bounds =
        All-map (IsInBounds lines) (λ r. r.score ≤ 10000) (λ r b. b.0) results
          (run_judges-IsInBounds p positive judges judge_input lines service provider sandbox
            service.judge_models 0) in
      let found = judgement-Aggregates results bounds in
      let conclude_with =
        conclude p service provider sandbox snapshot ai_identity results errors adversarial in
      if-elim Promised (too_large p service judge_input || too_large p service adversarial_input)
        (ok (early p AiStatus.skipped (some "input_too_large") snapshot ai_identity))
        (judgement results >>= λ scores. ok (conclude_with scores))
        (
          early p AiStatus.skipped (some "input_too_large") snapshot ai_identity,
          refl,
          early-IsTrustworthy p service AiStatus.skipped (some "input_too_large") snapshot
              ai_identity refl refl,
        )
        (
          conclude_with found.0,
          ap (λ scores. scores >>= λ s. ok (conclude_with s)) found.1,
          conclude-IsTrustworthy p service provider sandbox snapshot ai_identity results errors
              adversarial accounted configured found.0 found.2,
        )

  early-Promised :
      (status : AiStatus) (reason : Option String) (ai_identity : AiIdentity)
      → is_completed status ≡ false
      → is_disputed status ≡ false
      → Promised (ok (early p status reason snapshot ai_identity))
  early-Promised status reason ai_identity c d = (
    early p status reason snapshot ai_identity,
    refl,
    early-IsTrustworthy p service status reason snapshot ai_identity c d,
  )

  asked-Promised :
      (ai_identity : AiIdentity) (judges : Option JudgeService)
      → Promised (elim judges [
        | none ↦
            ok (early p AiStatus.unavailable (some "provider_unavailable") snapshot ai_identity)
        | some j ↦ run_assessment p service provider sandbox snapshot task ai_identity j
      ])
  asked-Promised ai_identity none =
      early-Promised AiStatus.unavailable (some "provider_unavailable") ai_identity refl refl
  asked-Promised ai_identity (some judges) = run_assessment-Promised ai_identity judges

  -- With at least one judge model configured, an assessment is answered whatever the provider, the
  -- sandbox, the parsers and the files answer or raise. It has an AI score exactly when it is
  -- completed; it is disputed exactly when the spread of the judges exceeds the threshold; its
  -- scores are at most 100, and the score of the judges is within the spread of each of theirs; a
  -- completed one has a result of every judge and an accounted, completed adversarial result; a
  -- disabled or skipped one has no result of a judge and no adversarial result.
  pub assess-IsTrustworthy :
      (expected : Option AiIdentity)
      → (a : AiAssessment) × (assess p service provider sandbox snapshot task expected ≡ ok a)
        × IsTrustworthy service a
  unfolding assess
  assess-IsTrustworthy expected =
      let present = identity p service task in
      let asked = asked-Promised present service.judge_service in
      if-elim Promised (not service.enabled) _ _
        (early-Promised AiStatus.disabled none present refl refl)
        (if-elim Promised (is_mismatch p expected present) _ _
          (early-Promised AiStatus.skipped (some "ai_identity_mismatch")
            (expected_or expected present) refl refl)
          (if-elim Promised (not service.has_provider) _ _
            (early-Promised AiStatus.unavailable (some "provider_unavailable") present refl refl)
            asked))
