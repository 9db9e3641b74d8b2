-- ===== src/Frontend.antt =====
-- `tools/call` of `MCPFrontend`, src/ploston_core/mcp_frontend/server.py: which component a call goes
-- to, and the answer. The components' handlers that are called from here and not modelled are the
-- record `Handlers`. Of an answer the `structuredContent` is left out; the telemetry, the chain
-- detection and the log, whose exceptions are dropped, too.
pub mod Gated
pub mod Reached
use Prim.Native.String
use ploston_core.Prelude.{
  ℕ, String, Bool, true, false, ◌||◌, not, Option, none, some, List, [], ◌∷◌, ◌==◌, mem, is_some,
  truthy, or_else, if◌then◌else◌,
}
use ploston_core.Prelude.Assoc.{Assoc}
use ploston_core.Prelude.Strings.{starts_with}
use ploston_core.Errors.{Exc, ael, Result, ok, err, ◌>>=◌}
use ploston_core.Types.{ExecutionStatus}
use ploston_core.Value.{Value, Fields, get_field, is_truthy, dict_of}
use ploston_core.Modes.{Mode, same_mode}
use ploston_core.Engine.{ToolCallResult}
use ploston_core.Engine.Execute.{ExecutionResult}
use ploston_core.Runners.{Runner, Registry, get_by_name}
use ploston_core.Tools.{ToolRegistry}
use ploston_core.Tools
use ploston_core.Registrations.{WorkflowRegistry}
use ploston_core.Registrations
use ploston_core.Invoker.{Backends, parse_tool_prefix, invoke}

pub data Response : Type 0 where
  -- One text, and `isError`.
  reply : String → Bool → Response
  -- A dict that is handed on as it came.
  given : Fields → Response

pub record Handlers (W : Type 0) : Type 0 where
  -- `call` of the config tool registry and of the workflow tools provider, if there are these.
  pub configure : Option (String → Assoc Value → W → Result Fields × W)
  pub manage : Option (String → Assoc Value → W → Result Fields × W)
  -- `send_tool_call_to_runner`: the runner's id, tool, arguments and timeout.
  pub send : String → String → Assoc Value → ℕ → W → Result Fields × W
  -- `execute` of the workflow engine.
  pub execute : String → Assoc Value → W → Result ExecutionResult × W
  pub backends : Backends W
  -- `str(v)`, `json.dumps(v)`, and the message of an `AELError` by its code and detail.
  pub str : Value → String
  pub dumps : Value → Result String
  pub message : String → String → String

-- What the frontend reads. `connections` are the ids of the runners with an open websocket.
pub record Frontend : Type 0 where
  pub mode : Mode
  pub tools : ToolRegistry
  pub workflows : WorkflowRegistry
  pub runners : Option Registry
  pub connections : List String

-- `WORKFLOW_MGMT_TOOL_NAMES`
abbrev pub mgmt_tool_names : List String
mgmt_tool_names =
    "workflow_schema" ∷ "workflow_list" ∷ "workflow_list_tools" ∷ "workflow_get"
    ∷ "workflow_get_definition" ∷ "workflow_create" ∷ "workflow_delete" ∷ "workflow_patch"
    ∷ "workflow_tool_schema" ∷ "workflow_call_tool" ∷ "workflow_run" ∷ []

unfoldable pub is_mgmt_tool : String → Bool
is_mgmt_tool name = mem name mgmt_tool_names

unfoldable pub is_config_name : String → Bool
is_config_name name = starts_with name "ael:" || starts_with name "ploston:" || name == "configure"

-- The tool that a runner is sent.
unfoldable pub sent_name : String × String → String
sent_name (mcp, tool) = if mcp == "" then tool else String.◌++◌ mcp (String.◌++◌ "__" tool)

-- The runner of a name, if it is not empty, and its tool.
unfoldable pub runner_prefix : Option (String × String × String) → Option (String × String)
runner_prefix none = none
runner_prefix (some (runner, mcp, tool)) =
    if runner == "" then none else some (runner, sent_name (mcp, tool))

abbrev pub configuring : Frontend → Bool
configuring f = same_mode f.mode Mode.configuration

abbrev pub tool_unavailable : {R : Type 0} → String → Result R
tool_unavailable name = err (ael "TOOL_UNAVAILABLE" name)

abbrev pub handed_on : {W : Type 0} → Result Fields × W → Result Response × W
handed_on (r, w) = (r >>= λ d. ok (given d), w)

-- What leaves the call of a runner.
unfoldable pub runner_error : String → Exc → Exc
runner_error name (ael code detail) = ael code detail
runner_error name (Exc.other kind) =
    if kind == "TimeoutError" then ael "TOOL_TIMEOUT" name else ael "TOOL_EXECUTION_FAILED" name
runner_error name e = ael "TOOL_EXECUTION_FAILED" name

abbrev pub labelled : String → String → String
labelled runner tool = String.◌++◌ runner (String.◌++◌ ":" tool)

module _ {W : Type 0} (h : Handlers W) where
  -- A text, or the JSON of another value.
  unfoldable pub text_or_json : Value → Result String
  text_or_json (Value.str s) = ok s
  text_or_json v = h.dumps v

  abbrev pub said : Value → Result Response
  said v = text_or_json v >>= λ s. ok (reply s false)

  -- A runner's answer: with `content`, with an `error` that is truthy, or any other.
  unfoldable pub answer_of : Fields → Result Response
  answer_of d = elim (get_field "content" d) [
    | some v ↦ ok (given d)
    | none ↦
        let e = or_else (get_field "error" d) Value.null in
        if is_truthy e
        then ok (reply (h.str e) true)
        else said (or_else (get_field "output" d) (Value.dict d))
  ]

  -- The `except` clauses, which hold for the making of the answer, too.
  unfoldable pub from_runner : String → Result Fields × W → Result Response × W
  from_runner name (r, w) =
      (elim (r >>= answer_of) [ ok response ↦ ok response | err e ↦ err (runner_error name e) ], w)

  -- `name` is the runner's and the tool's, for the errors; `connections` are the open websockets.
  unfoldable pub call_runner :
      List String → String → String → Assoc Value → Option Runner → W → Result Response × W
  call_runner connections name tool arguments none w = (tool_unavailable name, w)
  call_runner connections name tool arguments (some r) w =
      if mem r.id connections
      then from_runner name (h.send r.id tool arguments 60 w)
      else (tool_unavailable name, w)

  -- `_execute_runner_tool`
  unfoldable pub execute_runner_tool :
      Frontend → String → String → Assoc Value → W → Result Response × W
  execute_runner_tool f runner tool arguments w =
      let name = labelled runner tool in
      elim f.runners [
        | none ↦ (tool_unavailable name, w)
        | some registry ↦
            call_runner f.connections name tool arguments (get_by_name runner registry) w
      ]

  -- `error.message if error else ...`. Only an `AELError` has a message.
  abbrev pub error_text : String → Option Exc → Result String
  error_text default none = ok default
  error_text default (some (ael c detail)) = ok (h.message c detail)
  error_text default (some e) = err (Exc.other "AttributeError")

  abbrev pub failed_with : String → Option Exc → Result Response
  failed_with default e = error_text default e >>= λ s. ok (reply s true)

  unfoldable pub from_invoker : Result ToolCallResult × W → Result Response × W
  from_invoker (err e, w) = (err e, w)
  from_invoker (ok r, w) =
      (if r.success then said r.output else failed_with "Tool call failed" r.error, w)

  -- `_execute_tool`
  unfoldable pub execute_tool : Frontend → String → Assoc Value → W → Result Response × W
  execute_tool f name arguments w = from_invoker (invoke h.backends f.tools name arguments none w)

  unfoldable pub from_engine : Result ExecutionResult × W → Result Response × W
  from_engine (err e, w) = (err e, w)
  from_engine (ok r, w) = (
    elim r.status [
      | ExecutionStatus.completed ↦
          h.dumps (Value.dict (dict_of r.outputs)) >>= λ s. ok (reply s false)
      | _ ↦ failed_with "Workflow failed" r.error
    ],
    w,
  )

  -- `_execute_workflow`
  unfoldable pub execute_workflow : String → Assoc Value → W → Result Response × W
  execute_workflow name arguments w = from_engine (h.execute name arguments w)

  -- `_handle_config_tool_call`: while the mode is CONFIGURATION all but `configure`, else this only.
  unfoldable pub handle_config_tool_call : Frontend → String → Assoc Value → W → Result Response × W
  handle_config_tool_call f name arguments w = elim h.configure [
    | none ↦ (tool_unavailable name, w)
    | some call ↦
        if (if configuring f
          then not (name == "configure")
          else name == "configure" || name == "ploston:configure")
        then handed_on (call name arguments w)
        else (tool_unavailable name, w)
  ]

  -- A step of the routing that is refused in the mode CONFIGURATION.
  abbrev pub when_running : Frontend → String → W → Result Response × W → Result Response × W
  when_running f name w served = if configuring f then (tool_unavailable name, w) else served

  -- The steps 4 to 6: the tool registry, the workflow registry, and no component.
  unfoldable pub call_registered : Frontend → String → Assoc Value → W → Result Response × W
  call_registered f name arguments w =
      if is_some (Tools.get name f.tools)
      then when_running f name w (execute_tool f name arguments w)
      else if is_some (Registrations.get name f.workflows)
      then when_running f name w (execute_workflow name arguments w)
      else (tool_unavailable name, w)

  -- Step 3, the management tools. Without a provider the name is looked up further.
  unfoldable pub call_managed : Frontend → String → Assoc Value → W → Result Response × W
  call_managed f name arguments w =
      if is_mgmt_tool name
      then when_running f name w (elim h.manage [
        | none ↦ call_registered f name arguments w
        | some call ↦ handed_on (call name arguments w)
      ])
      else call_registered f name arguments w

  -- The steps 1 and 2: the config tools and the runners.
  unfoldable pub route : Frontend → String → Assoc Value → W → Result Response × W
  route f name arguments w =
      if is_config_name name
      then handle_config_tool_call f name arguments w
      else elim (runner_prefix (parse_tool_prefix name)) [
        | some (runner, tool) ↦ execute_runner_tool f runner tool arguments w
        | none ↦ call_managed f name arguments w
      ]

  -- `_handle_tools_call`, with the name if the parameters have one.
  unfoldable pub handle_tools_call :
      Frontend → Option String → Assoc Value → W → Result Response × W
  handle_tools_call f name arguments w =
      if truthy name
      then route f (or_else name "") arguments w
      else (err (ael "PARAM_INVALID" "Tool name is required"), w)
