-- ===== src/Ai/Platform.antt =====
-- What the services of app/ai take from Python, pydantic and the provider, as a parameter.
use codejudge_ai.Base.{ℕ, Bool, String, Option, List}
use codejudge_ai.Base.Errors.{Result}
use codejudge_ai.Ai.Models.{
  Payload, JudgeOutput, GeneratedTestProposal, AssessmentArtifacts, AiIdentity,
}

-- the targets of an assignment, and the nodes that `ast.walk` visits, in its order
pub data Target : Type 0 where
  name : String → Target
  other : Target

pub data Node : Type 0 where
  import_ : (names : List String) → Node
  import_from : (module_ : Option String) → Node
  function_def : (name : String) → Node
  async_function_def : (name : String) → Node
  assign : (targets : List Target) → Node
  ann_assign : (target : Target) → Node
  other : Node

-- `same_identity` is pydantic's `==`, which compares the fields, `payload_json` and `artifacts_json` are canonical_json, `parse_judge` and `parse_tests` are
-- json.loads with model_validate, where none is a JSONDecodeError or a ValidationError, and `parse`
-- is ast.parse, where none is a SyntaxError. `read_bytes` fails by an OSError.
pub record Platform : Type 0 where
  pub units : ℕ
  pub payload_json : Payload → String
  pub artifacts_json : AssessmentArtifacts → String
  pub same_identity : AiIdentity → AiIdentity → Bool
  pub sha256 : String → String
  pub strip : String → String
  pub parse_judge : String → Option JudgeOutput
  pub parse_tests : String → Option (List GeneratedTestProposal)
  pub parse : String → Option (List Node)
  pub read_bytes : String → Option String
  pub read_text : String → Result String
