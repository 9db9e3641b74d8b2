-- ===== src/Validator.antt =====
-- `WorkflowValidator` of src/ploston_core/workflow/validator.py. The texts that Python writes for lists
-- in messages are a record `Texts`.
pub mod Checks
pub mod WellFormed
pub mod Steps
pub mod Sound
use Prim.Native.String
use text.Mathlib.Text.{starts_with}
use ploston_core.Prelude.{
  ℕ, String, Bool, true, false, not, ◌&&◌, ◌||◌, Option, none, some, List, [], ◌∷◌, ◌++◌, map, ◌==◌,
  ltb, mem, select, or_else, is_some, truthy, if◌then◌else◌,
}
use ploston_core.Prelude.Assoc.{Assoc, values}
use ploston_core.Prelude.Count.{occurs}
use ploston_core.Prelude.Dicts.{any}
use ploston_core.Prelude.Texts.{join, split_at}
use ploston_core.Value.{dict_of, Value, Fields, end, field}
use ploston_core.Validation.{ValidationIssue, ValidationResult}
use ploston_core.Workflow.{
  WorkflowDefaults, InputDefinition, OutputDefinition, StepDefinition, WorkflowDefinition,
}
use ploston_core.Workflow.Order.{deps_of, Order, order, circular, no_fuel, get_execution_order}
use ploston_core.Runners.{Tool, Runner, Registry, is_connected, get_by_name}
use ploston_core.Runners.Names.{get_tool_name, has_tool}
use ploston_core.Template.{Python}
use ploston_core.Template.Render as TemplateEngine
use ploston_core.Tools.{ToolDefinition, ToolRegistry}
use ploston_core.Tools.Listed.{list_tools}

pub record Texts : Type 0 where
  pub python : Python
  -- What Python writes for a list, for a sorted one, for a sorted set, and for a joined set.
  pub listed : List String → String
  pub sorted_list : List String → String
  pub sorted_set : List String → String
  pub joined_set : List String → String

-- The template engine's `validate` and `extract_references`, called with parameters.
unfoldable pub template_errors : Texts → Assoc Value → List String
template_errors texts ps = TemplateEngine.validate texts.python (Value.dict (dict_of ps))

unfoldable pub template_references : Assoc Value → List String
template_references ps = TemplateEngine.extract_references (Value.dict (dict_of ps))

pub record WorkflowValidator : Type 0 where
  pub texts : Texts
  pub tools : ToolRegistry
  pub runners : Option Registry

abbrev pub issue : List String → String → ValidationIssue
issue path message = record {
  path = join "." path;
  message = message;
  severity = "error";
  line = none;
}

abbrev pub text_of : Option String → String
text_of s = or_else s ""

-- `f"{mcp}__"`
abbrev pub server_prefix : String → String
server_prefix mcp = String.◌++◌ mcp "__"

-- Whether a connected runner has a tool of the server.
unfoldable pub hosts : String → Runner → Bool
hosts mcp r =
    is_connected r && any (λ t. starts_with (get_tool_name t) (server_prefix mcp)) r.available_tools

unfoldable pub hosting : String → Registry → List Runner
hosting mcp s = select (hosts mcp) (values s.runners)

-- The runner that a step without one is taken to run on: `none` where there is none, and an error
-- where there are several.
pub data Inferred : Type 0 where
  runner : Option String → Inferred
  several : List String → Inferred

unfoldable pub only_one : List Runner → Inferred
only_one [] = runner none
only_one (r ∷ []) = runner (some r.name)
only_one (r ∷ q ∷ rs) = several (map (λ x. x.name) (r ∷ q ∷ rs))

unfoldable pub infer_runner : Option String → String → Option Registry → Inferred
infer_runner (some name) mcp runners = runner (some name)
infer_runner none mcp none = runner none
infer_runner none mcp (some s) = only_one (hosting mcp s)

module _ (v : WorkflowValidator) where
  open v use {texts, tools, runners}

  abbrev not_found : String → String → String → String
  not_found tool mcp more =
      join "" ("Tool '" ∷ tool ∷ "' not found on MCP server '" ∷ mcp ∷ "'" ∷ more ∷ [])

  abbrev offered_hint : String → String → List String → String
  offered_hint mcp name [] = ""
  offered_hint mcp name (t ∷ ts) = join "" (
      " Available tools on '"
      ∷ mcp
      ∷ "' server (runner '"
      ∷ name
      ∷ "'): "
      ∷ texts.listed (t ∷ ts)
      ∷ [])

  abbrev runner_hint : String → String → Option Runner → String
  runner_hint mcp name none = join "" (" Runner '" ∷ name ∷ "' not found in registry." ∷ [])
  runner_hint mcp name (some r) =
      offered_hint mcp name
        (select (λ t. starts_with t (server_prefix mcp)) (map get_tool_name r.available_tools))

  -- Path 2: the tool on a runner. `none` says that it is found.
  unfoldable pub resolve_on : String → String → String → Registry → Option String
  resolve_on name mcp tool s =
      if has_tool name (join "__" (name ∷ mcp ∷ tool ∷ [])) s
      then none
      else some (
          not_found tool mcp (
            join "" (" (runner '" ∷ name ∷ "')." ∷ runner_hint mcp name (get_by_name name s) ∷ [])))

  abbrev servers_of : List ToolDefinition → List String
  servers_of ts = select (λ s. not (s == "")) (map (λ t. text_of t.server_name) ts)

  abbrev server_hint : String → List ToolDefinition → String
  server_hint mcp [] = join "" (
      " No MCP server named '"
      ∷ mcp
      ∷ "' found. Known servers: "
      ∷ texts.sorted_set (servers_of (list_tools none none none none tools))
      ∷ [])
  server_hint mcp (t ∷ ts) = join "" (
      " Available tools on '" ∷ mcp ∷ "' server: " ∷ texts.listed (map (λ x. x.name) (t ∷ ts)) ∷ [])

  -- Path 3: the tool of a server of the control plane.
  unfoldable pub resolve_direct : String → String → Option String
  resolve_direct mcp tool =
      let matching = list_tools none (some mcp) none none tools in
      if any (λ t. t.name == tool) matching
      then none
      else some (not_found tool mcp (join "" ("." ∷ server_hint mcp matching ∷ [])))

  unfoldable pub resolve_by : Option String → Option Registry → String → String → Option String
  resolve_by name none mcp tool = resolve_direct mcp tool
  resolve_by name (some s) mcp tool =
      if truthy name then resolve_on (text_of name) mcp tool s else resolve_direct mcp tool

  unfoldable pub resolve_inferred : Inferred → String → String → Option String
  resolve_inferred (several names) mcp tool = some (
      join "" (
        "MCP server '"
        ∷ mcp
        ∷ "' is hosted on multiple runners: "
        ∷ texts.sorted_list names
        ∷ ". Add 'defaults.runner' to the workflow to disambiguate."
        ∷ []))
  resolve_inferred (runner name) mcp tool = resolve_by name runners mcp tool

  -- `_resolve_tool`: the message, or `none` where the tool is found.
  unfoldable pub resolve_tool : StepDefinition → Option String → Option String
  resolve_tool s default_runner =
      resolve_inferred (infer_runner default_runner (text_of s.mcp) runners) (text_of s.mcp)
        (text_of s.tool)
