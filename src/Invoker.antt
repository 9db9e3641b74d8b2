-- ===== src/Invoker.antt =====
-- `ToolInvoker` of src/ploston_core/invoker/invoker.py, with the parsing of tool names in
-- src/ploston_core/runner_management/router.py. The runner dispatcher, the MCP servers and the
-- sandbox are functions on the state of the outside. Durations, the metrics and the observation of
-- output schemas, which cannot fail a call, are left out.
pub mod Gate
pub mod Returned
pub mod Native
pub mod Names
use Prim.Native.String
use ploston_core.Prelude.{
  ℕ, String, Bool, true, false, ◌&&◌, not, Option, none, some, List, [], ◌∷◌, ◌==◌, nat_eq, truthy,
  or_else, if◌then◌else◌,
}
use ploston_core.Prelude.Assoc.{Assoc, lookup}
use ploston_core.Prelude.Texts.{join}
use ploston_core.Errors.{Exc, Result, ok, err, ael}
use ploston_core.Types.{ToolSource}
use ploston_core.Value.{Value, end, field, is_truthy}
use ploston_core.Engine.{ToolCallResult}
use ploston_core.Runners.Names.{split_name}
use ploston_core.Tools.{
  ToolDefinition, ToolRouter, ToolRegistry, is_available, get_or_raise, get_router,
}

-- `MCPCallResult`
pub record McpCallResult : Type 0 where
  pub content : Value
  pub is_error : Bool

pub record SandboxResult : Type 0 where
  pub success : Bool
  pub result : Value
  pub error : Option String

pub record Backends (W : Type 0) : Type 0 where
  -- The runner dispatcher, if there is one: runner, tool, arguments and timeout.
  pub dispatch : Option (String → String → Assoc Value → ℕ → W → Result Value × W)
  -- `call_tool` of the MCP manager: server, tool, arguments and timeout.
  pub call_tool : String → String → Assoc Value → Option ℕ → W → Result McpCallResult × W
  -- A new sandbox: code and context.
  pub execute : Value → Value → W → Result SandboxResult × W
  -- `hasattr(v, "inputs")`
  pub has_inputs : Value → Bool

-- `parse_tool_prefix`: runner, MCP and tool of a name with three parts or more.
unfoldable pub parse_tool_prefix : String → Option (String × String × String)
parse_tool_prefix tool_name = elim (split_name tool_name) [
  | runner ∷ mcp ∷ tool ∷ more ↦ some (runner, mcp, join "__" (tool ∷ more))
  | _ ↦ none
]

-- `format_tool_name`
unfoldable pub format_tool_name : String → String → String → String
format_tool_name runner mcp tool =
    String.◌++◌ runner (String.◌++◌ "__" (String.◌++◌ mcp (String.◌++◌ "__" tool)))

-- `normalize_tool_name_for_metrics`: the runner and the name without it, if the name has both
-- prefixes and neither is empty.
unfoldable pub runner_of : Option (String × String × String) → Option (String × String)
runner_of none = none
runner_of (some (runner, mcp, tool)) =
    if not (runner == "") && not (mcp == "")
    then some (runner, String.◌++◌ mcp (String.◌++◌ "__" tool))
    else none

unfoldable pub normalize_tool_name : String → Option (String × String)
normalize_tool_name tool_name = runner_of (parse_tool_prefix tool_name)

abbrev pub succeeded : Value → ToolCallResult
succeeded output = record { success = true; output = output; error = none }

abbrev pub failed : Exc → ToolCallResult
failed e = record { success = false; output = Value.null; error = some e }

-- `timeout_seconds or 60.0`
abbrev pub runner_timeout : Option ℕ → ℕ
runner_timeout none = 60
runner_timeout (some t) = if nat_eq t 0 then 60 else t

abbrev pub get_param : String → Assoc Value → Value
get_param name params = or_else (lookup name params) Value.null

module _ {W : Type 0} (b : Backends W) where
  -- What `invoke` returns for a runner's answer: an exception becomes a failed result.
  unfoldable pub from_runner : Result Value × W → Result ToolCallResult × W
  from_runner (Result.ok output, w) = (ok (succeeded output), w)
  from_runner (Result.err e, w) = (ok (failed e), w)

  unfoldable pub invoke_runner :
      String → String → Assoc Value → Option ℕ → W → Result ToolCallResult × W
  invoke_runner runner tool params timeout w = elim b.dispatch [
    | none ↦ (err (ael "TOOL_UNAVAILABLE" tool), w)
    | some dispatch ↦ from_runner (dispatch runner tool params (runner_timeout timeout) w)
  ]

  unfoldable pub from_mcp : String → Result McpCallResult × W → Result ToolCallResult × W
  from_mcp tool_name (Result.ok r, w) =
      (ok (if r.is_error then failed (ael "TOOL_FAILED" tool_name) else succeeded r.content), w)
  from_mcp tool_name (Result.err e, w) = (ok (failed (ael "TOOL_FAILED" tool_name)), w)

  -- `_invoke_mcp`
  unfoldable pub invoke_mcp :
      String → Assoc Value → String → Option ℕ → W → Result ToolCallResult × W
  invoke_mcp tool_name params server_name timeout w =
      from_mcp tool_name (b.call_tool server_name tool_name params timeout w)

  unfoldable pub from_sandbox : Result SandboxResult × W → Result ToolCallResult × W
  from_sandbox (Result.ok r, w) = (
    ok (record {
      success = r.success;
      output = r.result;
      error = if truthy r.error then some (ael "CODE_RUNTIME" (or_else r.error "")) else none;
    }),
    w,
  )
  from_sandbox (Result.err e, w) = (err e, w)

  -- `_invoke_python_exec`, which does not use the timeout.
  unfoldable pub invoke_python_exec : Assoc Value → W → Result ToolCallResult × W
  invoke_python_exec params w =
      let code = get_param "code" params in
      let given = or_else (lookup "context" params) (Value.dict end) in
      let context = if b.has_inputs given then Value.dict (field "context" given end) else given in
      if is_truthy code
      then from_sandbox (b.execute code context w)
      else (err (ael "PARAM_INVALID" "python_exec"), w)

  -- `_invoke_system`
  unfoldable pub invoke_system : String → Assoc Value → W → Result ToolCallResult × W
  invoke_system tool_name params w =
      if tool_name == "python_exec"
      then invoke_python_exec params w
      else (err (ael "INTERNAL_ERROR" tool_name), w)

  -- The choice of the backend.
  unfoldable pub route :
      String → Assoc Value → Option ℕ → ToolRouter → W → Result ToolCallResult × W
  route tool_name params timeout router w = elim router.source [
    | ToolSource.mcp ↦ elim router.server_name [
      | none ↦ (err (ael "INTERNAL_ERROR" tool_name), w)
      | some server_name ↦ invoke_mcp tool_name params server_name timeout w
    ]
    | ToolSource.system ↦ invoke_system tool_name params w
    | ToolSource.http ↦ (err (ael "INTERNAL_ERROR" tool_name), w)
    | ToolSource.native ↦ (err (ael "INTERNAL_ERROR" tool_name), w)
  ]

  -- A tool that is registered, and its router.
  unfoldable pub invoke_registered :
      String
      → Assoc Value
      → Option ℕ
      → Result ToolDefinition
      → Option ToolRouter
      → W
      → Result ToolCallResult × W
  invoke_registered tool_name params timeout (Result.err e) router w = (err e, w)
  invoke_registered tool_name params timeout (Result.ok tool) none w =
      (err (ael "TOOL_UNAVAILABLE" tool_name), w)
  invoke_registered tool_name params timeout (Result.ok tool) (some router) w =
      if is_available tool.status
      then route tool_name params timeout router w
      else (err (ael "TOOL_UNAVAILABLE" tool_name), w)

  unfoldable pub invoke_named :
      ToolRegistry
      → String
      → Assoc Value
      → Option ℕ
      → Option (String × String)
      → W
      → Result ToolCallResult × W
  invoke_named s tool_name params timeout none w =
      invoke_registered tool_name params timeout (get_or_raise tool_name s) (get_router tool_name s)
        w
  invoke_named s tool_name params timeout (some (runner, tool)) w =
      invoke_runner runner tool params timeout w

  unfoldable pub invoke :
      ToolRegistry → String → Assoc Value → Option ℕ → W → Result ToolCallResult × W
  invoke s tool_name params timeout w =
      invoke_named s tool_name params timeout (normalize_tool_name tool_name) w

  -- `call`: `raise None` is a TypeError.
  unfoldable pub output_of : Result ToolCallResult → Result Value
  output_of (Result.err e) = err e
  output_of (Result.ok r) = if r.success then ok r.output else err (or_else r.error Exc.type_error)

  unfoldable pub call : ToolRegistry → String → Assoc Value → W → Result Value × W
  call s tool_name params w = let (r, w') = invoke s tool_name params none w in (output_of r, w')
