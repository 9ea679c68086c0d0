-- ===== src/Benchmarks/Reliability.antt =====
-- app/benchmarks/reliability.py: failure codes with a detail, over the code points of the texts.
pub mod Diagnostics
pub mod Counts
use codejudge_ai.Base.{
  ℕ, suc, ◌+◌, Bool, true, false, ◌&&◌, ◌||◌, not, String, Option, none, some, List, [], ◌∷◌, ◌++◌,
  any, count, drop, filter, length, ltb, leb, map, ◌==◌, if◌then◌else◌,
}
use codejudge_ai.Base.Text.{codes, is_prefix, member, same_text}

pub data GenerationFailureCategory : Type 0 where
  rate_limited unauthorized forbidden not_found : GenerationFailureCategory
  provider_unavailable provider_timeout provider_error : GenerationFailureCategory
  invalid_response malformed_output unknown : GenerationFailureCategory

abbrev pub generation_failure_category_order : List GenerationFailureCategory
generation_failure_category_order =
    rate_limited ∷ unauthorized ∷ forbidden ∷ not_found ∷ provider_unavailable ∷ provider_timeout
    ∷ provider_error ∷ invalid_response ∷ malformed_output ∷ unknown ∷ []

-- a place in the order, which tells the categories apart
abbrev pub place : GenerationFailureCategory → ℕ
place rate_limited = 0
place unauthorized = 1
place forbidden = 2
place not_found = 3
place provider_unavailable = 4
place provider_timeout = 5
place provider_error = 6
place invalid_response = 7
place malformed_output = 8
place unknown = 9

-- _SAFE_PROVIDER_FAILURE_DETAILS
abbrev pub safe_provider_failure_details : List (List ℕ)
safe_provider_failure_details =
    codes "empty_choices"
    ∷ codes "empty_content"
    ∷ codes "empty_output"
    ∷ codes "invalid_choice"
    ∷ codes "invalid_choices_type"
    ∷ codes "invalid_message_type"
    ∷ codes "malformed_json"
    ∷ codes "missing_choices"
    ∷ codes "missing_content"
    ∷ codes "missing_message"
    ∷ codes "null_content"
    ∷ codes "reasoning_only"
    ∷ codes "refusal"
    ∷ codes "tool_call_only"
    ∷ codes "unsupported_content_type"
    ∷ codes "unsupported_root_type"
    ∷ []

abbrev pub is_safe : Option (List ℕ) → Bool
is_safe none = false
is_safe (some detail) = member detail safe_provider_failure_details

abbrev pub separator : List ℕ
separator = b':' ∷ b':' ∷ []

pub record FailureDiagnostic : Type 0 where
  pub code : Option (List ℕ)
  pub detail_code : Option (List ℕ)

-- _MAX_PERSISTED_FAILURE_LENGTH
abbrev pub max_persisted_failure_length : ℕ
max_persisted_failure_length = 128

unfoldable pub with_detail : List ℕ → List ℕ → List ℕ
with_detail code detail =
    let encoded = code ++ separator ++ detail in
    if leb (length encoded) max_persisted_failure_length then encoded else code

unfoldable pub encode_failure_diagnostic : List ℕ → Option (List ℕ) → List ℕ
encode_failure_diagnostic code none = code
encode_failure_diagnostic code (some detail) =
    if not (is_safe (some detail)) then code else with_detail code detail

-- `value.rpartition("::")`: what stands before and after the last separator
unfoldable pub rpartition : List ℕ → Option (List ℕ × List ℕ)
rpartition [] = none
rpartition (c ∷ cs) = elim (rpartition cs) [
  | some parts ↦ some (c ∷ parts.0, parts.1)
  | none ↦ if is_prefix separator (c ∷ cs) then some ([], drop 2 (c ∷ cs)) else none
]

abbrev pub nonempty : List ℕ → Bool
nonempty [] = false
nonempty (c ∷ cs) = true

unfoldable pub decoded : List ℕ → Option (List ℕ × List ℕ) → FailureDiagnostic
decoded value none = record { code = some value; detail_code = none }
decoded value (some (code, detail)) =
    if nonempty code && is_safe (some detail)
    then record { code = some code; detail_code = some detail }
    else record { code = some value; detail_code = none }

unfoldable pub decode_failure_diagnostic : Option (List ℕ) → FailureDiagnostic
decode_failure_diagnostic none = record { code = none; detail_code = none }
decode_failure_diagnostic (some value) = decoded value (rpartition value)

-- _NORMALIZED_FAILURE_CODES
abbrev pub normalized_failure_codes : List (List ℕ × GenerationFailureCategory)
normalized_failure_codes =
    (codes "provider_rate_limited", rate_limited)
    ∷ (codes "provider_unauthorized", unauthorized)
    ∷ (codes "provider_forbidden", forbidden)
    ∷ (codes "provider_not_found", not_found)
    ∷ (codes "provider_unavailable", provider_unavailable)
    ∷ (codes "provider_timeout", provider_timeout)
    ∷ (codes "provider_error", provider_error)
    ∷ (codes "provider_request_rejected", provider_error)
    ∷ (codes "provider_refusal", provider_error)
    ∷ (codes "provider_not_configured", provider_error)
    ∷ (codes "malformed_provider_response", invalid_response)
    ∷ (codes "provider_output_too_large", invalid_response)
    ∷ (codes "output_too_large", invalid_response)
    ∷ (codes "malformed_output", malformed_output)
    ∷ (codes "empty_output", malformed_output)
    ∷ []

unfoldable pub category_of :
    List ℕ → List (List ℕ × GenerationFailureCategory) → GenerationFailureCategory
category_of code [] = unknown
category_of code ((c, category) ∷ rest) =
    if same_text c code then category else category_of code rest

unfoldable pub normalize_generation_failure : Option (List ℕ) → GenerationFailureCategory
normalize_generation_failure value = elim (decode_failure_diagnostic value).code [
  | none ↦ unknown
  | some code ↦ category_of code normalized_failure_codes
]

-- how many of the codes are of the category
unfoldable pub category_count : GenerationFailureCategory → List (Option (List ℕ)) → ℕ
category_count category codes' =
    count (λ c. place (normalize_generation_failure c) == place category) codes'

-- in the documented order, without the categories that do not occur
unfoldable pub generation_failure_category_counts :
    List (Option (List ℕ)) → List (GenerationFailureCategory × ℕ)
generation_failure_category_counts codes' =
    filter (λ entry. ltb 0 entry.1)
      (map (λ category. (category, category_count category codes'))
        generation_failure_category_order)
