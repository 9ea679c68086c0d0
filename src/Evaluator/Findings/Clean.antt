-- ===== src/Evaluator/Findings/Clean.antt =====
-- When there is nothing to report.
use codejudge_ai.Base.{
  ℕ, ◌≡◌, ◌≢◌, ◌↔◌, refl, sym, ap, ◌∙◌, arith, Bool, true, false, not, ◌&&◌, String, Option, none,
  some, List, [], ◌∷◌, ◌++◌, is_some, ◌==◌, ==_refl, Bool-cases, inl, inr,
}
use codejudge_ai.Base.Text.{codes, is_prefix, contains}
use codejudge_ai.Evaluator.Findings.{
  build_findings, output, output_finding, load_finding, test_finding, syntax_failed, import_failed,
}
use codejudge_ai.Evaluator.Models.{RunnerResult}

-- the text has the needle in it
abbrev pub Occurs : (needle text : List ℕ) → Type 0
Occurs needle text = (before : List ℕ) × (after : List ℕ) × (text ≡ before ++ (needle ++ after))

is_prefix-starts :
    (needle text : List ℕ)
    → is_prefix needle text ≡ true
    → (after : List ℕ) × (text ≡ needle ++ after)
unfolding is_prefix
is_prefix-starts [] text h = (text, refl)
is_prefix-starts (x ∷ xs) [] h = absurd (ground (arith, h))
is_prefix-starts (x ∷ xs) (y ∷ ys) h =
    let same : x ≡ y = ground (arith, h) in
    let rest : is_prefix xs ys ≡ true = ground (arith, h) in
    let (after, e) = is_prefix-starts xs ys rest in (after, λ i. sym same i ∷ e i)

starts-is_prefix : (needle after : List ℕ) → is_prefix needle (needle ++ after) ≡ true
unfolding is_prefix
starts-is_prefix [] after = refl
starts-is_prefix (x ∷ xs) after = rw (==_refl x, starts-is_prefix xs after) refl

contains-Occurs : (needle text : List ℕ) → contains needle text ≡ true → Occurs needle text
unfolding contains
contains-Occurs needle [] h = let (after, e) = is_prefix-starts needle [] h in ([], after, e)
contains-Occurs needle (y ∷ ys) h = elim (Bool-cases (is_prefix needle (y ∷ ys))) [
  | inl here ↦ let (after, e) = is_prefix-starts needle (y ∷ ys) here in ([], after, e)
  | inr later ↦
      let (before, after, e) = contains-Occurs needle ys (ground (arith, h, later)) in
      (y ∷ before, after, ap (λ t. y ∷ t) e)
]

contains-start : (needle text : List ℕ) → is_prefix needle text ≡ true → contains needle text ≡ true
unfolding contains
contains-start needle [] h = h
contains-start needle (y ∷ ys) h = rw h refl

contains-inside :
    (needle before after : List ℕ) → contains needle (before ++ (needle ++ after)) ≡ true
unfolding contains
contains-inside needle [] after =
    contains-start needle (needle ++ after) (starts-is_prefix needle after)
contains-inside needle (x ∷ before) after =
    let rest = contains-inside needle before after in ground (arith, rest)

absent_iff : (needle text : List ℕ) → (contains needle text ≡ false) ↔ (Occurs needle text → ⊥)
absent_iff needle text = (
  λ h o.
      let there = ap (contains needle) o.2 ∙ contains-inside needle o.0 o.1 in
      absurd (ground (arith, h, there)),
  λ h. elim (Bool-cases (contains needle text)) [
    | inl there ↦ absurd (h (contains-Occurs needle text there))
    | inr absent ↦ absent
  ],
)

-- A run that ended by itself, kept to the output limit, was neither reported as a failure to load
-- the code nor printed the name of such an error, and ran tests of which none failed.
pub record IsClean (result : RunnerResult) : Type 0 where
  pub in_time : result.timed_out ≡ false
  pub in_memory : result.oom_killed ≡ false
  pub in_sandbox : result.sandbox_error ≡ none
  pub processed : result.infrastructure_error ≡ none
  pub well_formed : result.syntax_error ≡ false
  pub imported : result.import_error ≡ false
  pub no_syntax : Occurs (codes "SyntaxError") (output result) → ⊥
  pub no_import : Occurs (codes "ImportError") (output result) → ⊥
  pub no_module : Occurs (codes "ModuleNotFoundError") (output result) → ⊥
  pub whole : result.output_truncated ≡ false
  pub unfailed : result.failed ≡ 0
  pub tested : result.total ≢ 0

abbrev is_clean : RunnerResult → Bool
is_clean result =
    not result.timed_out
    && not result.oom_killed
    && not (is_some result.sandbox_error)
    && not (is_some result.infrastructure_error)
    && not (syntax_failed result)
    && not (import_failed result)
    && not result.output_truncated
    && result.failed == 0
    && not (result.total == 0)

unset {ℓ} : {A : Type ℓ} (o : Option A) → is_some o ≡ false → o ≡ none
unset none h = refl
unset (some a) h = absurd (ground (arith, h))

is_clean-IsClean : (result : RunnerResult) → is_clean result ≡ true → IsClean result
unfolding syntax_failed import_failed
is_clean-IsClean result h = record {
  in_time = ground (arith, h);
  in_memory = ground (arith, h);
  in_sandbox = unset result.sandbox_error (ground (arith, h));
  processed = unset result.infrastructure_error (ground (arith, h));
  well_formed = ground (arith, h);
  imported = ground (arith, h);
  no_syntax = (absent_iff (codes "SyntaxError") (output result)).0 (ground (arith, h));
  no_import = (absent_iff (codes "ImportError") (output result)).0 (ground (arith, h));
  no_module = (absent_iff (codes "ModuleNotFoundError") (output result)).0 (ground (arith, h));
  whole = ground (arith, h);
  unfailed = ground (arith, h);
  tested = ground (arith, h);
}

IsClean-is_clean : (result : RunnerResult) → IsClean result → is_clean result ≡ true
unfolding syntax_failed import_failed
IsClean-is_clean result c =
    let a = (absent_iff (codes "SyntaxError") (output result)).1 c.no_syntax in
    let b = (absent_iff (codes "ImportError") (output result)).1 c.no_import in
    let d = (absent_iff (codes "ModuleNotFoundError") (output result)).1 c.no_module in
    ground (
      arith, a, b, d, c.in_time, c.in_memory, c.in_sandbox, c.processed, c.well_formed, c.imported,
      c.whole, c.unfailed, c.tested,
    )

module _ (format_g decimal : ℕ → String) (result : RunnerResult) (timeout : ℕ) where
  found_nothing_iff :
      (build_findings format_g decimal result timeout ≡ []) ↔ (is_clean result ≡ true)
  unfolding build_findings output_finding load_finding test_finding
  found_nothing_iff = (λ h. ground arith, λ h. ground arith)

  -- There are no findings exactly when the run met no timeout, no lack of memory and no error of
  -- the sandbox or the infrastructure, no error of syntax or import is reported for it, the words
  -- SyntaxError, ImportError and ModuleNotFoundError are not in its output, the output was not cut,
  -- and it counted some tests and none as failed.
  pub build_findings-empty_iff :
      (build_findings format_g decimal result timeout ≡ []) ↔ IsClean result
  build_findings-empty_iff = (
    λ h. is_clean-IsClean result (found_nothing_iff.0 h),
    λ c. found_nothing_iff.1 (IsClean-is_clean result c),
  )
