-- ===== src/Engine/Resolve.antt =====
-- `_resolve_invoke_name` of src/ploston_core/engine/engine.py. The runner registry is what the outside
-- holds at the time of the call.
use ploston_core.Prelude.{
  String, not, Option, none, some, List, [], ◌∷◌, or_else, truthy, if◌then◌else◌,
}
use ploston_core.Prelude.Texts.{join}
use ploston_core.Workflow.{StepDefinition, WorkflowDefinition}
use ploston_core.Runners.{Runner, Registry}
use ploston_core.Validator.{hosting}
use ploston_core.Validator.Checks.{default_runner}
use ploston_core.Engine.{Backend}

-- `_get_effective_runner`, with the runner of the bridge that the call came by.
unfoldable pub get_effective_runner : Option String → WorkflowDefinition → Option String
get_effective_runner bridge_runner workflow =
    if truthy (default_runner workflow) then default_runner workflow else bridge_runner

abbrev pub single_match : List Runner → Option String
single_match [] = none
single_match (r ∷ []) = some r.name
single_match (r ∷ q ∷ rs) = none

abbrev pub inferred : String → Option Registry → Option String
inferred mcp none = none
inferred mcp (some s) = single_match (hosting mcp s)

abbrev pub canonical : Option String → String → String → String
canonical runner mcp tool =
    if truthy runner then join "__" (or_else runner "" ∷ mcp ∷ tool ∷ []) else tool

module _ {W : Type 0} (b : Backend W) where
  unfoldable pub resolve_invoke_name : StepDefinition → WorkflowDefinition → W → String
  resolve_invoke_name step workflow w =
      let tool = or_else step.tool "" in
      let mcp = or_else step.mcp "" in
      let effective = get_effective_runner b.bridge_runner workflow in
      if not (truthy step.mcp)
      then tool
      else if truthy effective
      then canonical effective mcp tool
      else canonical (inferred mcp (b.runners w)) mcp tool
