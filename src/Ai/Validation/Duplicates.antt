-- ===== src/Ai/Validation/Duplicates.antt =====
-- No generated test runs twice.
use codejudge_ai.Base.{
  ℕ, suc, ◌≤◌, ◌≡◌, ◌≢◌, refl, ap, inl, inr, true, false, none, List, [], ◌∷◌, map, any, All,
  All-map, String, str_eq, str_eq_iff, arith, Bool-cases, length,
}
use codejudge_ai.Ai.Models.{GeneratedTestProposal}
use codejudge_ai.Ai.Platform.{Platform}
use codejudge_ai.Ai.Validation.{
  ValidationResult, rejected, validate_test, validate_all, seen_before, identity_of, total_bytes,
  deduplicate_and_validate,
}

abbrev pub Validated : Type 0
Validated = GeneratedTestProposal × ValidationResult

module _ (p : Platform) where
  -- an accepted test that is not among the names and texts seen
  abbrev pub IsNew : (seen_names seen_hashes : List String) → Validated → Type 0
  IsNew seen_names seen_hashes (proposal, result) =
      result.accepted ≡ true
      → (any (str_eq proposal.name) seen_names ≡ false)
        × (any (str_eq (identity_of p proposal)) seen_hashes ≡ false)
        × ((validate_test p proposal).accepted ≡ true)

  IsNew-fewer :
      (name hash : String) (names hashes : List String) (x : Validated)
      → IsNew (name ∷ names) (hash ∷ hashes) x
      → IsNew names hashes x
  unfolding any
  IsNew-fewer name hash names hashes (proposal, result) new accepted =
      let n = new accepted in (ground (arith, n.0), ground (arith, n.1), n.2)

  validate_all-IsNew :
      (names hashes : List String) (proposals : List GeneratedTestProposal)
      → All (IsNew names hashes) (validate_all p names hashes proposals)
  unfolding validate_all seen_before
  validate_all-IsNew names hashes [] = tt
  validate_all-IsNew names hashes (proposal ∷ proposals) =
      let name = proposal.name in
      let hash = identity_of p proposal in
      let skipped = validate_all-IsNew names hashes proposals in
      let rest =
        All-map (IsNew (name ∷ names) (hash ∷ hashes)) (IsNew names hashes)
          (IsNew-fewer name hash names hashes)
          (validate_all p (name ∷ names) (hash ∷ hashes) proposals)
          (validate_all-IsNew (name ∷ names) (hash ∷ hashes) proposals) in
      elim (Bool-cases (seen_before p names hashes proposal)) [
        | inl seen ↦ rw seen ((λ accepted. absurd (cc)), skipped)
        | inr new ↦ rw new ((λ accepted. (ground arith, ground arith, accepted)), rest)
      ]

  -- Of two accepted tests, the texts without blanks at their ends and the names differ.
  abbrev pub Apart : Validated → Validated → Type 0
  Apart (first, r) (second, s) =
      r.accepted ≡ true
      → s.accepted ≡ true
      → (second.name ≢ first.name) × (identity_of p second ≢ identity_of p first)

  abbrev pub AllApart : List Validated → Type 0
  AllApart [] = Unit {0}
  AllApart (x ∷ xs) = All (Apart x) xs × AllApart xs

  IsNew-Apart :
      (first : GeneratedTestProposal) (r : ValidationResult) (names hashes : List String)
      (x : Validated)
      → IsNew (first.name ∷ names) (identity_of p first ∷ hashes) x
      → Apart (first, r) x
  unfolding any
  IsNew-Apart first r names hashes (second, s) new accepted accepted' =
      let n = new accepted' in
      (
        λ e. ground (arith, n.0, str_eq_iff second.name first.name),
        λ e. ground (arith, n.1, str_eq_iff (identity_of p second) (identity_of p first)),
      )

  rejected-Apart :
      (first : GeneratedTestProposal) (x : Validated) (reason : String)
      → Apart (first, rejected reason) x
  rejected-Apart first (second, s) reason accepted = absurd (cc)

  All-Apart-rejected :
      (first : GeneratedTestProposal) (reason : String) (xs : List Validated)
      → All (Apart (first, rejected reason)) xs
  All-Apart-rejected first reason [] = tt
  All-Apart-rejected first reason (x ∷ xs) =
      (rejected-Apart first x reason, All-Apart-rejected first reason xs)

  validate_all-AllApart :
      (names hashes : List String) (proposals : List GeneratedTestProposal)
      → AllApart (validate_all p names hashes proposals)
  unfolding validate_all
  validate_all-AllApart names hashes [] = tt
  validate_all-AllApart names hashes (proposal ∷ proposals) =
      let names' = proposal.name ∷ names in
      let hashes' = identity_of p proposal ∷ hashes in
      elim (Bool-cases (seen_before p names hashes proposal)) [
        | inl seen ↦ rw seen (
          All-Apart-rejected proposal "duplicate_test" (validate_all p names hashes proposals),
          validate_all-AllApart names hashes proposals,
        )
        | inr new ↦ rw new (
          All-map (IsNew names' hashes') (Apart (proposal, validate_test p proposal))
              (IsNew-Apart proposal (validate_test p proposal) names hashes)
              (validate_all p names' hashes' proposals)
              (validate_all-IsNew names' hashes' proposals),
          validate_all-AllApart names' hashes' proposals,
        )
      ]

  -- every proposal is answered, in order
  validate_all-map :
      (names hashes : List String) (proposals : List GeneratedTestProposal)
      → map (λ (x : Validated). x.0) (validate_all p names hashes proposals) ≡ proposals
  unfolding validate_all
  validate_all-map names hashes [] = refl
  validate_all-map names hashes (proposal ∷ proposals) =
      let names' = proposal.name ∷ names in
      let hashes' = identity_of p proposal ∷ hashes in
      elim (Bool-cases (seen_before p names hashes proposal)) [
        | inl seen ↦ rw seen (ap (λ ps. proposal ∷ ps) (validate_all-map names hashes proposals))
        | inr new ↦ rw new (ap (λ ps. proposal ∷ ps) (validate_all-map names' hashes' proposals))
      ]

  length-map_validated :
      (xs : List Validated) → length (map (λ (x : Validated). x.0) xs) ≡ length xs
  length-map_validated [] = refl
  length-map_validated (x ∷ xs) = ap suc (length-map_validated xs)

  pub deduplicate_and_validate-length :
      (proposals : List GeneratedTestProposal) (max_tests : ℕ)
      → (deduplicate_and_validate p proposals max_tests).0 ≡ none
      → length (deduplicate_and_validate p proposals max_tests).1 ≡ length proposals
  unfolding deduplicate_and_validate
  deduplicate_and_validate-length proposals max_tests h = ground (
    arith,
    length-map_validated (validate_all p [] [] proposals),
    ap length (validate_all-map [] [] proposals),
  )

  -- When the validation of generated tests raises nothing, they are within the limits of number and
  -- size, all are answered in their order, an accepted one has passed the policy of a single test,
  -- and no two accepted ones share a name or, up to blanks at the ends, a digest of their text.
  pub deduplicate_and_validate-AllApart :
      (proposals : List GeneratedTestProposal) (max_tests : ℕ) (results : List Validated)
      → deduplicate_and_validate p proposals max_tests ≡ (none, results)
      → (length proposals ≤ max_tests)
        × (total_bytes proposals ≤ 65536)
        × (map (λ (x : Validated). x.0) results ≡ proposals)
        × All (λ x. x.1.accepted ≡ true → (validate_test p x.0).accepted ≡ true) results
        × AllApart results
  unfolding deduplicate_and_validate
  deduplicate_and_validate-AllApart proposals max_tests results h =
      let same : validate_all p [] [] proposals ≡ results = ground arith in
      (
        ground arith,
        ground arith,
        rw (← same) (validate_all-map [] [] proposals),
        rw (← same) (
            All-map (IsNew [] []) (λ x. x.1.accepted ≡ true → (validate_test p x.0).accepted ≡ true)
              (λ (proposal, result) new accepted. (new accepted).2) (validate_all p [] [] proposals)
              (validate_all-IsNew [] [] proposals)),
        rw (← same) (validate_all-AllApart [] [] proposals),
      )
