-- ===== src/Tools.antt =====
-- `ToolRegistry` of src/ploston_core/registry/registry.py: the tools that MCP servers report, and
-- where a call of one goes. What the servers report comes from outside: it is an argument. A tool is
-- a value here, since only the registry changes it. The learned schemas, the search and the format
-- of `tools/list` are left out.
pub mod Refresh
pub mod Listed
pub mod Gathered
pub mod Status
use Prim.Native.String
use ploston_core.Prelude.{
  ℕ, suc, ◌+◌, String, Bool, true, false, ◌&&◌, ◌||◌, not, Option, none, some, List, [], ◌∷◌, ◌++◌,
  ◌==◌, length, mem, select, truthy, or_else, is_some, if◌then◌else◌,
}
use ploston_core.Prelude.Assoc.{Assoc, lookup, insert, keys, values}
use ploston_core.Errors.{Exc, Result, ok, err, ael}
use ploston_core.Types.{ToolSource, ToolStatus}
use ploston_core.Value.{Value}

-- `ToolSchema` of src/ploston_core/mcp/types.py, what a server reports of a tool.
pub record ToolSchema : Type 0 where
  pub name : String
  pub description : String
  pub input_schema : Value
  pub output_schema : Option Value

pub record ToolDefinition : Type 0 where
  pub name : String
  pub description : String
  pub source : ToolSource
  pub server_name : Option String
  pub tags : List String
  pub input_schema : Value
  pub output_schema : Option Value
  pub status : ToolStatus
  pub last_seen : Option ℕ
  pub error : Option String

pub record ToolRouter : Type 0 where
  pub source : ToolSource
  pub server_name : Option String

pub record RefreshResult : Type 0 where
  pub total_tools : ℕ
  pub added : List String
  pub removed : List String
  pub updated : List String
  pub errors : Assoc Exc

-- The numbers of available tools by source.
pub record Counts : Type 0 where
  pub mcp : ℕ
  pub system : ℕ
  pub native : ℕ

-- `counts` are the metrics, if a metrics instance is set; `notified` counts the calls of
-- `on_tools_changed`, where `listening` says that there is such a callback.
pub record ToolRegistry : Type 0 where
  pub tools : Assoc ToolDefinition
  pub counts : Option Counts
  pub listening : Bool
  pub notified : ℕ

unfoldable pub is_available : ToolStatus → Bool
is_available ToolStatus.available = true
is_available _ = false

-- `source in (ToolSource.MCP, ToolSource.NATIVE)`
unfoldable pub is_remote : ToolSource → Bool
is_remote ToolSource.mcp = true
is_remote ToolSource.native = true
is_remote _ = false

unfoldable pub count_tools : List ToolDefinition → Counts
count_tools [] = record { mcp = 0; system = 0; native = 0 }
count_tools (t ∷ ts) =
    let rest = count_tools ts in
    if is_available t.status
    then elim t.source [
      | ToolSource.mcp ↦ record rest { mcp = rest.mcp + 1 }
      | ToolSource.system ↦ record rest { system = rest.system + 1 }
      | ToolSource.native ↦ record rest { native = rest.native + 1 }
      | ToolSource.http ↦ rest
    ]
    else rest

unfoldable pub update_metrics : ToolRegistry → ToolRegistry
update_metrics s = record s {
  counts = if is_some s.counts then some (count_tools (values s.tools)) else none;
}

abbrev pub is_cons : {A : Type 0} → List A → Bool
is_cons [] = false
is_cons (x ∷ xs) = true

-- `_fire_tools_changed`
unfoldable pub fire_tools_changed : RefreshResult → ToolRegistry → ToolRegistry
fire_tools_changed r s = record s {
  notified =
      if s.listening && (is_cons r.added || is_cons r.removed || is_cons r.updated)
      then s.notified + 1
      else s.notified;
}

-- `_get_tool_source_for_server`
unfoldable pub source_for_server : String → ToolSource
source_for_server server_name =
    if server_name == "native_tools" || server_name == "native-tools"
    then ToolSource.native
    else ToolSource.mcp

unfoldable pub source_tags : ToolSource → List String
source_tags ToolSource.mcp = "source:mcp" ∷ []
source_tags ToolSource.system = "source:system" ∷ []
source_tags ToolSource.native = "source:native" ∷ []
source_tags ToolSource.http = []

-- `_build_system_tags`; the tags are a set.
unfoldable pub build_system_tags : ToolDefinition → List String
build_system_tags tool =
    "kind:tool" ∷ source_tags tool.source
    ++ (if truthy tool.server_name
        then String.◌++◌ "server:" (or_else tool.server_name "") ∷ []
        else [])

unfoldable pub get : String → ToolRegistry → Option ToolDefinition
get name s = lookup name s.tools

unfoldable pub get_or_raise : String → ToolRegistry → Result ToolDefinition
get_or_raise name s = elim (get name s) [
  | none ↦ err (ael "TOOL_UNAVAILABLE" name)
  | some tool ↦ ok tool
]

unfoldable pub router_of : Option ToolDefinition → Option ToolRouter
router_of none = none
router_of (some tool) = some (record { source = tool.source; server_name = tool.server_name })

unfoldable pub get_router : String → ToolRegistry → Option ToolRouter
get_router name s = router_of (get name s)

-- The tool that `_register_system_tools` makes; `schema` is its input schema.
abbrev pub python_exec : Value → ℕ → ToolDefinition
python_exec schema now = record {
  name = "python_exec";
  description = "Execute Python code in secure sandbox";
  source = ToolSource.system;
  server_name = some "system";
  tags = "kind:tool" ∷ "source:system" ∷ "server:system" ∷ [];
  input_schema = schema;
  output_schema = none;
  status = ToolStatus.available;
  last_seen = some now;
  error = none;
}

-- `_register_system_tools`, where `enabled` is `system_tools.python_exec_enabled`.
unfoldable pub register_system_tools : Value → Bool → ℕ → ToolRegistry → ToolRegistry
register_system_tools schema enabled now s = update_metrics (
    if enabled
    then record s { tools = insert "python_exec" (python_exec schema now) s.tools }
    else s)
