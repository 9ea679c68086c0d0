-- ===== src/Ai/Scoring/Bounds.antt =====
-- The range of the scores, and of what several judges are aggregated to.
use codejudge_ai.Base.{
  ℕ, zero, suc, ◌+◌, ◌-◌, ◌*◌, ◌/◌, ◌≤◌, ◌<◌, ◌≡◌, List, [], ◌∷◌, length, All, All-map, arith, refl,
  ltb, if◌then◌else◌,
}
use codejudge_ai.Base.Errors.{ok}
use codejudge_ai.Base.Sort.{sort, All-sort, length-sort}
use codejudge_ai.Evaluator.Scoring.{rounded}
use codejudge_ai.Evaluator.Scoring.Bounds.{rounded-le}
use codejudge_ai.Ai.Models.{JudgeOutput}
use codejudge_ai.Ai.Scoring.{
  capped, calculate_judge_score, maximum, minimum, get_or, doubled_median, aggregate_judge_scores,
  calculate_ai_score,
}

capped-le : (top value : ℕ) → capped top value ≤ top
unfolding capped
capped-le top value = ground arith

pub calculate_judge_score-le :
    (units : ℕ) (output : JudgeOutput) → 0 < units → calculate_judge_score units output ≤ 10000
unfolding calculate_judge_score
calculate_judge_score-le units output p = rounded-le _ 10000 units p (capped-le (10000 * units) _)

pub calculate_ai_score-le :
    (judge_score robustness : ℕ) → calculate_ai_score judge_score robustness ≤ 10000
unfolding calculate_ai_score
calculate_ai_score-le judge_score robustness =
    rounded-le _ 10000 100 (omega arith) (capped-le 1000000 (judge_score * 70 + robustness * 30))

-- the scores lie between two bounds
abbrev pub Within : ℕ → ℕ → ℕ → Type 0
Within lo hi x = (lo ≤ x) × (x ≤ hi)

maximum-ge : (best : ℕ) (xs : List ℕ) → best ≤ maximum best xs
unfolding maximum
maximum-ge best [] = omega arith
maximum-ge best (x ∷ xs) = ground (arith, maximum-ge best xs, maximum-ge x xs)

minimum-le : (best : ℕ) (xs : List ℕ) → minimum best xs ≤ best
unfolding minimum
minimum-le best [] = omega arith
minimum-le best (x ∷ xs) = ground (arith, minimum-le best xs, minimum-le x xs)

All-between : (lo hi : ℕ) (xs : List ℕ) → All (Within (minimum lo xs) (maximum hi xs)) xs
unfolding maximum minimum
All-between lo hi [] = tt
All-between lo hi (x ∷ xs) =
    let lo' : ℕ = if ltb x lo then x else lo in
    let hi' : ℕ = if ltb hi x then x else hi in
    ((ground (arith, minimum-le lo' xs), ground (arith, maximum-ge hi' xs)), All-between lo' hi' xs)

get_or-All {κ} :
    (P : ℕ → Type κ) (xs : List ℕ) (i d : ℕ) → All P xs → i < length xs → P (get_or xs i d)
unfolding get_or
get_or-All P [] i d h lt = absurd (omega arith)
get_or-All P (x ∷ xs) zero d h lt = h.0
get_or-All P (x ∷ xs) (suc i) d h lt = get_or-All P xs i d h.1 (omega arith)

rounded-half : (lo hi n : ℕ) → 2 * lo ≤ n → n ≤ 2 * hi → Within lo hi (rounded n 2)
unfolding rounded
rounded-half lo hi n h k = ground arith

doubled_median-between :
    (lo hi x : ℕ) (xs : List ℕ)
    → All (Within lo hi) (x ∷ xs)
    → (2 * lo ≤ doubled_median (x ∷ xs)) × (doubled_median (x ∷ xs) ≤ 2 * hi)
unfolding doubled_median
doubled_median-between lo hi x xs h =
    let n : ℕ = length (x ∷ xs) in
    let ordered : List ℕ = sort ltb (x ∷ xs) in
    let within : All (Within lo hi) ordered = All-sort ltb (Within lo hi) (x ∷ xs) h in
    let size : length ordered ≡ n = length-sort ltb (x ∷ xs) in
    let low = get_or-All (Within lo hi) ordered (n / 2 - 1) 0 within (omega arith) in
    let high = get_or-All (Within lo hi) ordered (n / 2) 0 within (omega arith) in
    ground (arith, low, high)

maximum-bounded :
    (top best : ℕ) (xs : List ℕ) → best ≤ top → All (λ s. s ≤ top) xs → maximum best xs ≤ top
unfolding maximum
maximum-bounded top best [] b h = b
maximum-bounded top best (x ∷ xs) b h =
    maximum-bounded top (if ltb best x then x else best) xs (ground (arith, h.0)) h.1

-- Scores of at most 100, of one judge or more, are aggregated to a score of at most 100 and a
-- spread of at most 100, and each of the scores differs from the aggregated one by no more than the
-- spread.
pub aggregate_judge_scores-near :
    (x : ℕ) (xs : List ℕ)
    → All (λ s. s ≤ 10000) (x ∷ xs)
    → (score : ℕ) × (spread : ℕ) × (aggregate_judge_scores (x ∷ xs) ≡ ok (score, spread))
      × All (λ s. (s ≤ score + spread) × (score ≤ s + spread)) (x ∷ xs)
      × (score ≤ 10000)
      × (spread ≤ 10000)
unfolding aggregate_judge_scores
aggregate_judge_scores-near x xs h =
    let lo : ℕ = minimum x xs in
    let hi : ℕ = maximum x xs in
    let first : Within lo hi x = (minimum-le x xs, maximum-ge x xs) in
    let others : All (Within lo hi) xs = All-between x x xs in
    let middle = doubled_median-between lo hi x xs (first, others) in
    let score : ℕ = rounded (doubled_median (x ∷ xs)) 2 in
    let inside : Within lo hi score = rounded-half lo hi _ middle.0 middle.1 in
    let top : hi ≤ 10000 = maximum-bounded 10000 x xs h.0 h.1 in
    let near : (s : ℕ) → Within lo hi s → (s ≤ score + (hi - lo)) × (score ≤ s + (hi - lo)) =
      λ s w. (omega (arith, w.0, w.1), omega (arith, w.0, w.1)) in
    (
      score,
      hi - lo,
      refl,
      All-map (Within lo hi) (λ s. (s ≤ score + (hi - lo)) × (score ≤ s + (hi - lo))) near (x ∷ xs)
          (first, others),
      omega arith,
      omega arith,
    )
