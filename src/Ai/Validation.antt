-- ===== src/Ai/Validation.antt =====
-- app/ai/validation.py: which generated tests may run. The tree of a test is the sequence of nodes
-- that `ast.walk` visits.
pub mod Admission
pub mod Duplicates
use codejudge_ai.Base.{
  ℕ, ◌+◌, ◌*◌, Bool, true, false, ◌&&◌, ◌||◌, Option, none, some, List, [], ◌∷◌, map, any, String,
  length, str_eq, ltb, ◌==◌, if◌then◌else◌, or_else,
}
use codejudge_ai.Base.Errors.{Result, ok, raise}
use codejudge_ai.Base.Text.{codes, is_prefix, member, utf8_length}
use codejudge_ai.Ai.Models.{GeneratedTestProposal}
use codejudge_ai.Ai.Platform.{
  Platform, Target, Node, import_, import_from, function_def, async_function_def, assign,
  ann_assign,
}

-- PROHIBITED_IMPORTS
abbrev pub prohibited_imports : List (List ℕ)
prohibited_imports =
    codes "socket" ∷ codes "subprocess" ∷ codes "multiprocessing" ∷ codes "ctypes" ∷ []

abbrev pub max_generated_test_bytes : ℕ
max_generated_test_bytes = 16384

abbrev pub max_total_generated_test_bytes : ℕ
max_total_generated_test_bytes = 65536

pub record ValidationResult : Type 0 where
  pub accepted : Bool
  pub reason : Option String

abbrev pub rejected : String → ValidationResult
rejected reason = record { accepted = false; reason = some reason }

-- `name.split(".", 1)[0]`
unfoldable pub root : List ℕ → List ℕ
root [] = []
root (c ∷ cs) = if c == b'.' then [] else c ∷ root cs

unfoldable pub is_prohibited : String → Bool
unfolding root member
is_prohibited module_ = member (root (codes module_)) prohibited_imports

-- a node that imports a prohibited module
unfoldable pub imports_prohibited : Node → Bool
unfolding is_prohibited any
imports_prohibited (import_ names) = any is_prohibited names
imports_prohibited (import_from module_) = is_prohibited (or_else module_ "")
imports_prohibited _ = false

abbrev pub is_plugins : Target → Bool
is_plugins (Target.name id) = str_eq id "pytest_plugins"
is_plugins Target.other = false

-- a node that assigns to `pytest_plugins`
unfoldable pub declares_plugins : Node → Bool
unfolding any
declares_plugins (assign targets) = any is_plugins targets
declares_plugins (ann_assign target) = is_plugins target
declares_plugins _ = false

abbrev pub test_prefix : List ℕ
test_prefix = codes "test_"

-- the name that a node adds to `test_names`
unfoldable pub test_name : Node → Option String
unfolding is_prefix
test_name (function_def name) = if is_prefix test_prefix (codes name) then some name else none
test_name (async_function_def name) = if is_prefix test_prefix (codes name) then some name else none
test_name _ = none

abbrev pub is_named : String → Option String → Bool
is_named name none = false
is_named name (some found) = str_eq found name

-- The loop over the nodes. Instead of the set it keeps whether the name is in it.
unfoldable pub walk : String → Bool → List Node → ValidationResult
unfolding imports_prohibited declares_plugins test_name
walk name found [] =
    if found then record { accepted = true; reason = none } else rejected "missing_named_test"
walk name found (node ∷ nodes) =
    let rest = walk name (found || is_named name (test_name node)) nodes in
    if imports_prohibited node
    then rejected "prohibited_import"
    else if declares_plugins node
    then rejected "pytest_plugin_declaration"
    else rest

unfoldable pub validate_tree : String → Option (List Node) → ValidationResult
unfolding walk
validate_tree name none = rejected "invalid_python"
validate_tree name (some nodes) = walk name false nodes

unfoldable pub total_bytes : List GeneratedTestProposal → ℕ
unfolding utf8_length
total_bytes [] = 0
total_bytes (item ∷ items) = utf8_length (codes item.code) + total_bytes items

module _ (p : Platform) where
  unfoldable pub validate_test : GeneratedTestProposal → ValidationResult
  unfolding utf8_length validate_tree
  validate_test proposal =
      if ltb max_generated_test_bytes (utf8_length (codes proposal.code))
      then rejected "test_too_large"
      else validate_tree proposal.name (p.parse proposal.code)

  unfoldable pub identity_of : GeneratedTestProposal → String
  identity_of proposal = p.sha256 (p.strip proposal.code)

  unfoldable pub seen_before : (seen_names seen_hashes : List String) → GeneratedTestProposal → Bool
  unfolding any identity_of
  seen_before seen_names seen_hashes proposal =
      any (str_eq proposal.name) seen_names || any (str_eq (identity_of proposal)) seen_hashes

  -- the loop over the proposals
  unfoldable pub validate_all :
      (seen_names seen_hashes : List String)
      → List GeneratedTestProposal
      → List (GeneratedTestProposal × ValidationResult)
  unfolding seen_before validate_test identity_of
  validate_all seen_names seen_hashes [] = []
  validate_all seen_names seen_hashes (proposal ∷ proposals) =
      let skipped = validate_all seen_names seen_hashes proposals in
      let rest =
        validate_all (proposal.name ∷ seen_names) (identity_of proposal ∷ seen_hashes) proposals in
      if seen_before seen_names seen_hashes proposal
      then (proposal, rejected "duplicate_test") ∷ skipped
      else (proposal, validate_test proposal) ∷ rest

  -- The ValueErrors are answered by their messages.
  unfoldable pub deduplicate_and_validate :
      List GeneratedTestProposal
      → ℕ
      → Option String × List (GeneratedTestProposal × ValidationResult)
  unfolding validate_all total_bytes
  deduplicate_and_validate proposals max_tests =
      if ltb max_tests (length proposals)
      then (some "too_many_generated_tests", [])
      else if ltb max_total_generated_test_bytes (total_bytes proposals)
      then (some "generated_tests_too_large", [])
      else (none, validate_all [] [] proposals)
