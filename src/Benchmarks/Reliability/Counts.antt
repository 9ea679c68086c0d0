-- ===== src/Benchmarks/Reliability/Counts.antt =====
-- Every failure is counted in one category.
use codejudge_ai.Base.{
  ℕ, ◌+◌, ◌≡◌, refl, ◌∙◌, arith, Option, List, [], ◌∷◌, count, filter, length, ltb, map, ◌==◌,
  if◌then◌else◌,
}
use codejudge_ai.Benchmarks.Reliability.{
  GenerationFailureCategory, rate_limited, unauthorized, forbidden, not_found, provider_unavailable,
  provider_timeout, provider_error, invalid_response, malformed_output, unknown, place,
  normalize_generation_failure, category_count, generation_failure_category_order,
  generation_failure_category_counts,
}

-- the sum of the counts
unfoldable pub total : List (GenerationFailureCategory × ℕ) → ℕ
total [] = 0
total (entry ∷ entries) = entry.1 + total entries

total-filter :
    (entries : List (GenerationFailureCategory × ℕ))
    → total (filter (λ entry. ltb 0 entry.1) entries) ≡ total entries
unfolding total filter
total-filter [] = refl
total-filter (entry ∷ entries) = ground (arith, total-filter entries)

-- one for a code in its own category
abbrev one_in : GenerationFailureCategory → GenerationFailureCategory → ℕ
one_in c category = if place c == place category then 1 else 0

category_count-cons :
    (category : GenerationFailureCategory) (c : Option (List ℕ)) (cs : List (Option (List ℕ)))
    → category_count category (c ∷ cs)
      ≡ one_in (normalize_generation_failure c) category + category_count category cs
unfolding category_count count
category_count-cons category c cs = ground arith

abbrev counts_of :
    List (Option (List ℕ)) → List GenerationFailureCategory → List (GenerationFailureCategory × ℕ)
counts_of cs categories = map (λ category. (category, category_count category cs)) categories

abbrev ones_of : GenerationFailureCategory → List GenerationFailureCategory → ℕ
ones_of c [] = 0
ones_of c (category ∷ categories) = one_in c category + ones_of c categories

total-cons :
    (c : Option (List ℕ)) (cs : List (Option (List ℕ)))
    (categories : List GenerationFailureCategory)
    → total (counts_of (c ∷ cs) categories)
      ≡ ones_of (normalize_generation_failure c) categories + total (counts_of cs categories)
unfolding total
total-cons c cs [] = refl
total-cons c cs (category ∷ categories) =
    omega (arith, category_count-cons category c cs, total-cons c cs categories)

ones_of-one : (c : GenerationFailureCategory) → ones_of c generation_failure_category_order ≡ 1
ones_of-one rate_limited = refl
ones_of-one unauthorized = refl
ones_of-one forbidden = refl
ones_of-one not_found = refl
ones_of-one provider_unavailable = refl
ones_of-one provider_timeout = refl
ones_of-one provider_error = refl
ones_of-one invalid_response = refl
ones_of-one malformed_output = refl
ones_of-one unknown = refl

total-order :
    (cs : List (Option (List ℕ)))
    → total (counts_of cs generation_failure_category_order) ≡ length cs
unfolding total category_count count
total-order [] = refl
total-order (c ∷ cs) = omega (
  arith,
  total-cons c cs generation_failure_category_order,
  ones_of-one (normalize_generation_failure c),
  total-order cs,
)

-- The counts of the categories of failures add up to the number of failures.
pub generation_failure_category_counts-total :
    (cs : List (Option (List ℕ))) → total (generation_failure_category_counts cs) ≡ length cs
unfolding generation_failure_category_counts
generation_failure_category_counts-total cs =
    total-filter (counts_of cs generation_failure_category_order) ∙ total-order cs
