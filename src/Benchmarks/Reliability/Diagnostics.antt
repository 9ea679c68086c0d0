-- ===== src/Benchmarks/Reliability/Diagnostics.antt =====
-- What is encoded is decoded again.
use codejudge_ai.Base.{
  ℕ, ◌≡◌, refl, arith, Bool, true, not, ◌&&◌, Option, none, some, List, [], ◌∷◌, ◌++◌, All,
  Bool-cases, inl, inr, length, leb, ◌==◌, if◌then◌else◌,
}
use mathlib.Core.Path.{subst}
use codejudge_ai.Base.Text.{member, same_text, is_prefix}
use codejudge_ai.Benchmarks.Reliability.{
  is_safe, safe_provider_failure_details, separator, with_detail, encode_failure_diagnostic,
  rpartition, nonempty, decoded, decode_failure_diagnostic, max_persisted_failure_length,
}

-- the text has no colon
unfoldable pub is_plain : List ℕ → Bool
is_plain [] = true
is_plain (c ∷ cs) = not (c == b':') && is_plain cs

rpartition-plain : (cs : List ℕ) → is_plain cs ≡ true → rpartition cs ≡ none
unfolding rpartition is_prefix is_plain
rpartition-plain [] h = refl
rpartition-plain (c ∷ cs) h = ground (arith, rpartition-plain cs)

rpartition-separator :
    (detail : List ℕ)
    → is_plain detail ≡ true
    → rpartition (separator ++ detail) ≡ some ([], detail)
unfolding rpartition is_prefix is_plain
rpartition-separator [] h = refl
rpartition-separator (c ∷ cs) h = ground (arith, rpartition-plain cs)

rpartition-last :
    (code detail : List ℕ)
    → is_plain detail ≡ true
    → rpartition (code ++ separator ++ detail) ≡ some (code, detail)
unfolding rpartition
rpartition-last [] detail h = rpartition-separator detail h
rpartition-last (c ∷ cs) detail h = rw (rpartition-last cs detail h) refl

same_text-eq : (a b : List ℕ) → same_text a b ≡ true → a ≡ b
unfolding same_text
same_text-eq [] [] h = refl
same_text-eq [] (y ∷ ys) h = absurd (ground arith)
same_text-eq (x ∷ xs) [] h = absurd (ground arith)
same_text-eq (x ∷ xs) (y ∷ ys) h = ground (arith, same_text-eq xs ys)

member-is_plain :
    (text : List ℕ) (ts : List (List ℕ))
    → All (λ t. is_plain t ≡ true) ts
    → member text ts ≡ true
    → is_plain text ≡ true
unfolding member
member-is_plain text [] a h = absurd (ground arith)
member-is_plain text (t ∷ ts) a h = elim (Bool-cases (same_text t text)) [
  | inl here ↦ subst (λ s. is_plain s ≡ true) (same_text-eq t text here) a.0
  | inr later ↦ member-is_plain text ts a.1 (ground arith)
]

unfoldable all_plain : List (List ℕ) → Bool
all_plain [] = true
all_plain (t ∷ ts) = is_plain t && all_plain ts

all_plain-All : (ts : List (List ℕ)) → all_plain ts ≡ true → All (λ t. is_plain t ≡ true) ts
unfolding all_plain
all_plain-All [] h = tt
all_plain-All (t ∷ ts) h = (ground arith, all_plain-All ts (ground arith))

-- no detail that may be stored has a colon
is_safe-is_plain : (detail : List ℕ) → is_safe (some detail) ≡ true → is_plain detail ≡ true
unfolding all_plain is_plain
is_safe-is_plain detail h =
    member-is_plain detail safe_provider_failure_details
      (all_plain-All safe_provider_failure_details refl) h

-- the detail that is stored with a code: a safe one that fits
abbrev pub kept : List ℕ → Option (List ℕ) → Option (List ℕ)
kept code none = none
kept code (some detail) =
    if is_safe (some detail)
      && leb (length (code ++ separator ++ detail)) max_persisted_failure_length
    then some detail
    else none

-- A nonempty code without a colon is read back from what was encoded, with its detail when that is
-- on the allowlist and the whole fits into the column, and without a detail otherwise.
pub decode-encode :
    (code : List ℕ) (detail : Option (List ℕ))
    → is_plain code ≡ true
    → nonempty code ≡ true
    → decode_failure_diagnostic (some (encode_failure_diagnostic code detail))
      ≡ record { code = some code; detail_code = kept code detail }
unfolding decode_failure_diagnostic encode_failure_diagnostic with_detail decoded
decode-encode code none p n = rw (rpartition-plain code p) refl
decode-encode code (some detail) p n =
    ground (arith, rpartition-plain code p, is_safe-is_plain detail, rpartition-last code detail)
