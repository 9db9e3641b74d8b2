-- ===== src/Workflow.antt =====
-- src/ploston_core/workflow/types.py: the definition of a workflow.
-- `description`, `tags`, `packages` and the source fields are carried by no operation here.
pub mod Order
use ploston_core.Prelude.{
  ℕ, String, Bool, Option, none, some, List, [], ◌∷◌, ◌==◌, truthy, if◌then◌else◌,
}
use ploston_core.Prelude.Assoc.{Assoc}
use ploston_core.Types.{OnError, OnMissingTool, StepType, RetryConfig}
use ploston_core.Value.{Value}

pub record WorkflowDefaults : Type 0 where
  pub timeout : ℕ
  pub on_error : OnError
  pub retry : Option RetryConfig
  pub runner : Option String

-- A default of `None` is `none`.
pub record InputDefinition : Type 0 where
  pub name : String
  pub required : Bool
  pub default : Option Value

pub record OutputDefinition : Type 0 where
  pub name : String
  pub from_path : Option String
  pub value : Option String

pub record StepDefinition : Type 0 where
  pub id : String
  pub tool : Option String
  pub code : Option String
  pub mcp : Option String
  pub params : Assoc Value
  pub depends_on : Option (List String)
  pub on_error : Option OnError
  pub timeout : Option ℕ
  pub retry : Option RetryConfig
  pub on_missing_tool : Option OnMissingTool
  pub when : Option String

unfoldable pub step_type : StepDefinition → StepType
step_type s = if truthy s.tool then StepType.tool else StepType.code

pub record WorkflowDefinition : Type 0 where
  pub name : String
  pub version : String
  pub defaults : Option WorkflowDefaults
  pub inputs : List InputDefinition
  pub steps : List StepDefinition
  pub outputs : List OutputDefinition

-- The loop of `get_step`: the first step with the id.
unfoldable pub find_step : String → List StepDefinition → Option StepDefinition
find_step step_id [] = none
find_step step_id (s ∷ steps) = if s.id == step_id then some s else find_step step_id steps

unfoldable pub get_step : WorkflowDefinition → String → Option StepDefinition
unfolding find_step
get_step w step_id = find_step step_id w.steps
