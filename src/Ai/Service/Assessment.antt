-- ===== src/Ai/Service/Assessment.antt =====
-- What an assessment promises, whatever the provider, the sandbox and the files answer.
use codejudge_ai.Base.{
  ℕ, ◌+◌, ◌≤◌, ◌≡◌, refl, ap, arith, Bool, true, false, not, ◌&&◌, Option, none, some, List, [],
  ◌∷◌, map, All, length, String, is_some, ltb,
}
use codejudge_ai.Base.Errors.{ok, ◌>>=◌}
use codejudge_ai.Ai.Models.{
  AiStatus, JudgeResult, AdversarialResult, AiAssessment, AiIdentity, EvaluationSnapshot,
}
use codejudge_ai.Ai.Platform.{Platform}
use codejudge_ai.Ai.Scoring.Bounds.{aggregate_judge_scores-near, calculate_ai_score-le}
use codejudge_ai.Ai.Adversarial.Results.{IsAccounted, is_finished}
use codejudge_ai.Ai.Service.Identity.{AiService, assessment, early}
use codejudge_ai.Ai.Service.Outcomes.{conclusion, judgement, score_of, ai_score_of, is_completed}

abbrev pub is_disputed : AiStatus → Bool
is_disputed AiStatus.disputed = true
is_disputed _ = false

-- a status of an assessment without answers of models
abbrev pub is_untouched : AiStatus → Bool
is_untouched AiStatus.disabled = true
is_untouched AiStatus.skipped = true
is_untouched _ = false

abbrev pub AtMost100 : Option ℕ → Type 0
AtMost100 none = Unit {0}
AtMost100 (some score) = score ≤ 10000

-- The judge's score lies within the spread of what the judges are aggregated to.
abbrev pub Agrees : Option (ℕ × ℕ) → JudgeResult → Type 0
Agrees none r = ⊥
Agrees (some (score, spread)) r = (r.score ≤ score + spread) × (score ≤ r.score + spread)

abbrev pub exceeds : ℕ → Option ℕ → Bool
exceeds threshold none = false
exceeds threshold (some spread) = ltb threshold spread

abbrev pub paired : Option ℕ → Option ℕ → Option (ℕ × ℕ)
paired (some a) (some b) = some (a, b)
paired _ _ = none

abbrev pub HasAnswer : Option AdversarialResult → Type 0
HasAnswer none = ⊥
HasAnswer (some r) = (is_finished r.status ≡ true) × IsAccounted r

pub record IsTrustworthy (service : AiService) (a : AiAssessment) : Type 0 where
  pub scored : is_some a.ai_score ≡ is_completed a.status
  pub disputes : is_disputed a.status ≡ a.judge_disputed
  pub above : a.judge_disputed ≡ exceeds service.disagreement_threshold a.judge_disagreement_spread
  pub final : AtMost100 a.ai_score
  pub judges : AtMost100 a.judge_score
  pub spread : AtMost100 a.judge_disagreement_spread
  pub near : All (Agrees (paired a.judge_score a.judge_disagreement_spread)) a.judge_results
  pub complete :
      is_completed a.status ≡ true
      → (length a.judge_results ≡ length service.judge_models) × HasAnswer a.adversarial_tests
  pub untouched :
      is_untouched a.status ≡ true → (a.judge_results ≡ []) × (a.adversarial_tests ≡ none)

-- An assessment that did not get to the judges has no scores.
pub early-IsTrustworthy :
    (p : Platform) (service : AiService) (status : AiStatus) (reason : Option String)
    (snapshot : EvaluationSnapshot) (ai_identity : AiIdentity)
    → is_completed status ≡ false
    → is_disputed status ≡ false
    → IsTrustworthy service (early p status reason snapshot ai_identity)
unfolding early assessment
early-IsTrustworthy p service status reason snapshot ai_identity c d = record {
  scored = ground arith;
  disputes = d;
  above = refl;
  final = tt;
  judges = tt;
  spread = tt;
  near = tt;
  complete = λ h. absurd (ground arith);
  untouched = λ _. (refl, refl);
}

-- what the judges' results are aggregated to
abbrev pub Aggregates : List JudgeResult → Option (ℕ × ℕ) → Type 0
Aggregates results none = length results ≡ 0
Aggregates results (some (score, spread)) =
    All (Agrees (some (score, spread))) results × (score ≤ 10000) × (spread ≤ 10000)

All-map_of {κ} :
    (P : ℕ → Type κ) (results : List JudgeResult)
    → All (λ r. P r.score) results
    → All P (map score_of results)
unfolding score_of
All-map_of P [] h = tt
All-map_of P (r ∷ results) h = (h.0, All-map_of P results h.1)

All-of_map {κ} :
    (P : ℕ → Type κ) (results : List JudgeResult)
    → All P (map score_of results)
    → All (λ r. P r.score) results
unfolding score_of
All-of_map P [] h = tt
All-of_map P (r ∷ results) h = (h.0, All-of_map P results h.1)

pub judgement-Aggregates :
    (results : List JudgeResult)
    → All (λ r. r.score ≤ 10000) results
    → (scores : Option (ℕ × ℕ)) × (judgement results ≡ ok scores) × Aggregates results scores
unfolding judgement score_of
judgement-Aggregates [] h = (none, refl, refl)
judgement-Aggregates (r ∷ results) h =
    let (score, spread, e, near, s, d) =
      aggregate_judge_scores-near r.score (map score_of results)
        (All-map_of (λ s. s ≤ 10000) (r ∷ results) h) in
    (
      some (score, spread),
      ap (λ a. a >>= λ scores. ok (some scores)) e,
      (All-of_map (λ x. (x ≤ score + spread) × (score ≤ x + spread)) (r ∷ results) near, s, d),
    )

module _ (disputed all_valid adversarial_valid : Bool) (results : List JudgeResult)
    (errors : List String) (adversarial : AdversarialResult) where
  pub conclusion-is_completed :
      is_completed (conclusion disputed all_valid adversarial_valid results errors adversarial).0
      ≡ (not disputed && all_valid && adversarial_valid)
  unfolding conclusion
  conclusion-is_completed = ground arith

  pub conclusion-is_disputed :
      is_disputed (conclusion disputed all_valid adversarial_valid results errors adversarial).0
      ≡ disputed
  unfolding conclusion
  conclusion-is_disputed = ground arith

  pub conclusion-is_untouched :
      is_untouched (conclusion disputed all_valid adversarial_valid results errors adversarial).0
      ≡ false
  unfolding conclusion
  conclusion-is_untouched = ground arith

pub ai_score_of-is_some :
    (status : AiStatus) (scores : Option (ℕ × ℕ)) (robustness : Option ℕ)
    → (is_completed status ≡ true → is_some scores ≡ true)
    → (is_completed status ≡ true → is_some robustness ≡ true)
    → is_some (ai_score_of status scores robustness) ≡ is_completed status
unfolding ai_score_of
ai_score_of-is_some AiStatus.completed none robustness h k = absurd (ground (arith, h refl))
ai_score_of-is_some AiStatus.completed (some (a, b)) none h k = absurd (ground (arith, k refl))
ai_score_of-is_some AiStatus.completed (some (a, b)) (some robustness) h k = refl
ai_score_of-is_some AiStatus.disabled scores robustness h k = refl
ai_score_of-is_some AiStatus.partial scores robustness h k = refl
ai_score_of-is_some AiStatus.unavailable scores robustness h k = refl
ai_score_of-is_some AiStatus.disputed scores robustness h k = refl
ai_score_of-is_some AiStatus.skipped scores robustness h k = refl

pub ai_score_of-AtMost100 :
    (status : AiStatus) (scores : Option (ℕ × ℕ)) (robustness : Option ℕ)
    → AtMost100 (ai_score_of status scores robustness)
unfolding ai_score_of
ai_score_of-AtMost100 AiStatus.completed (some (a, b)) (some robustness) =
    calculate_ai_score-le a robustness
ai_score_of-AtMost100 _ _ _ = tt
