-- ===== src/Invoker/Returned.antt =====
-- Calls of available tools return their failures, and the tools of native servers.
use ploston_core.Prelude.{ℕ, String, ◌≡◌, refl, true, false, Option, none, some, if◌then◌else◌}
use ploston_core.Prelude.Assoc.{Assoc, lookup}
use ploston_core.Errors.{Exc, Result, ok, err, ael}
use ploston_core.Value.{Value}
use ploston_core.Engine.{ToolCallResult}
use ploston_core.Tools.{
  ToolDefinition, ToolRegistry, is_available, get, get_or_raise, get_router, router_of,
}
use ploston_core.Invoker.{
  Backends, McpCallResult, normalize_tool_name, invoke_registered, invoke_named, invoke, route,
}

abbrev pub IsSuccess : Value → ToolCallResult → Type 0
IsSuccess output r = (r.success ≡ true) × (r.output ≡ output) × (r.error ≡ none)

abbrev pub IsFailure : Exc → ToolCallResult → Type 0
IsFailure e r = (r.success ≡ false) × (r.error ≡ some e)

-- What an MCP server's answer makes of the call of a tool: an exception and an error of the server
-- are a failure with TOOL_FAILED, and else its content is the output.
abbrev pub IsFromMcp : String → Result McpCallResult → ToolCallResult → Type 0
IsFromMcp n (err e) r = IsFailure (ael "TOOL_FAILED" n) r
IsFromMcp n (ok a) r =
    if a.is_error then IsFailure (ael "TOOL_FAILED" n) r else IsSuccess a.content r

-- The same of a runner's answer: an exception is the error of a failure, and a value the output.
abbrev pub IsFromRunner : Result Value → ToolCallResult → Type 0
IsFromRunner (err e) r = IsFailure e r
IsFromRunner (ok v) r = IsSuccess v r

-- A call that returned a result with a property, with the outside left by `after`.
pub record IsAnswered {W : Type 0} (answer : Result ToolCallResult × W) (after : W)
    (IsRight : ToolCallResult → Type 0) : Type 0 where
  pub result : ToolCallResult
  pub returned : answer ≡ (ok result, after)
  pub right : IsRight result

pub invoke-route :
    {W : Type 0} (b : Backends W) (s : ToolRegistry) (n : String) (params : Assoc Value)
    (timeout : Option ℕ) (w : W) (t : ToolDefinition)
    → normalize_tool_name n ≡ none
    → lookup n s.tools ≡ some t
    → is_available t.status ≡ true
    → invoke b s n params timeout w
      ≡ route b n params timeout (record { source = t.source; server_name = t.server_name }) w
unfolding invoke invoke_named invoke_registered get_or_raise get get_router router_of
invoke-route b s n params timeout w t direct h up =
    rw (direct, invoke_named, get_or_raise, get_router, get, h, router_of, invoke_registered, up)
      refl
