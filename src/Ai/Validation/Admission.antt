-- ===== src/Ai/Validation/Admission.antt =====
-- Which generated tests are accepted.
use codejudge_ai.Base.{
  ◌≤◌, ◌≡◌, ◌↔◌, refl, inl, inr, Bool, true, false, not, ◌&&◌, some, List, [], ◌∷◌, any, String,
  arith, Option-cases,
}
use codejudge_ai.Base.Text.{codes, utf8_length}
use codejudge_ai.Ai.Models.{GeneratedTestProposal}
use codejudge_ai.Ai.Platform.{Platform, Node}
use codejudge_ai.Ai.Validation.{
  imports_prohibited, declares_plugins, test_name, is_named, walk, validate_tree, validate_test,
}

-- a node that defines the test of the name
unfoldable pub defines : String → Node → Bool
defines name node = is_named name (test_name node)

abbrev pub is_admissible : String → List Node → Bool
is_admissible name nodes =
    not (any imports_prohibited nodes)
    && not (any declares_plugins nodes)
    && any (defines name) nodes

walk-found :
    (name : String) (nodes : List Node)
    → (walk name true nodes).accepted
      ≡ (not (any imports_prohibited nodes) && not (any declares_plugins nodes))
unfolding walk any
walk-found name [] = refl
walk-found name (node ∷ nodes) = ground (arith, walk-found name nodes)

walk-accepted :
    (name : String) (nodes : List Node)
    → (walk name false nodes).accepted ≡ is_admissible name nodes
unfolding walk any defines
walk-accepted name [] = refl
walk-accepted name (node ∷ nodes) = ground (arith, walk-found name nodes, walk-accepted name nodes)

module _ (p : Platform) where
  -- what an accepted test is like
  abbrev pub IsAdmissible : GeneratedTestProposal → Type 0
  IsAdmissible proposal =
      (utf8_length (codes proposal.code) ≤ 16384)
      × (nodes : List Node) × (p.parse proposal.code ≡ some nodes)
      × (any imports_prohibited nodes ≡ false)
      × (any declares_plugins nodes ≡ false)
      × (any (defines proposal.name) nodes ≡ true)

  -- A generated test is accepted exactly when it has at most 16 KiB and parses, no node of its tree
  -- imports a prohibited module or assigns to pytest_plugins, and some node defines a test function
  -- of its name.
  pub validate_test-accepted_iff :
      (proposal : GeneratedTestProposal)
      → ((validate_test p proposal).accepted ≡ true) ↔ IsAdmissible proposal
  unfolding validate_test validate_tree
  validate_test-accepted_iff proposal = (
    λ h. elim (Option-cases (p.parse proposal.code)) [
      | inl e ↦ absurd (ground (arith, e))
      | inr (nodes, e) ↦
          let w = walk-accepted proposal.name nodes in
          (
            ground (arith, e),
            nodes,
            e,
            ground (arith, e, w),
            ground (arith, e, w),
            ground (arith, e, w),
          )
    ],
    λ (small, nodes, e, no_imports, no_plugins, defined).
        ground (arith, walk-accepted proposal.name nodes),
  )
