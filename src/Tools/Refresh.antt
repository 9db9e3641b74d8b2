-- ===== src/Tools/Refresh.antt =====
-- `refresh`, `refresh_server` and `on_config_change` of src/ploston_core/registry/registry.py.
use ploston_core.Prelude.{
  ℕ, String, Bool, false, ◌&&◌, ◌||◌, not, Option, none, some, List, [], ◌∷◌, ◌++◌, ◌==◌, length,
  mem, or_else, is_some, if◌then◌else◌,
}
use ploston_core.Prelude.Assoc.{Assoc, lookup, insert, keys}
use ploston_core.Errors.{Exc, Result, ok, err}
use ploston_core.Types.{ToolStatus}
use ploston_core.Value.{Value}
use ploston_core.Value.Compare.{eq_value}
use ploston_core.Tools.{
  ToolSchema, ToolDefinition, RefreshResult, ToolRegistry, is_remote, update_metrics,
  fire_tools_changed, source_for_server, build_system_tags, register_system_tools,
}

-- What the loops over the reported tools keep; `seen` is `new_tools` or `seen_tools`.
pub record Merge : Type 0 where
  pub tools : Assoc ToolDefinition
  pub added : List String
  pub updated : List String
  pub seen : List String

unfoldable pub with_tags : ToolDefinition → ToolDefinition
with_tags tool = record tool { tags = build_system_tags tool }

unfoldable pub new_tool : String → ℕ → ToolSchema → ToolDefinition
new_tool server_name now schema = record {
  name = schema.name;
  description = schema.description;
  source = source_for_server server_name;
  server_name = some server_name;
  tags = [];
  input_schema = schema.input_schema;
  output_schema = schema.output_schema;
  status = ToolStatus.available;
  last_seen = some now;
  error = none;
}

-- The fields of a known tool that are written; its server's name stays.
unfoldable pub refreshed : String → ℕ → ToolSchema → ToolDefinition → ToolDefinition
refreshed server_name now schema existing = record existing {
  description = schema.description;
  input_schema = schema.input_schema;
  output_schema = schema.output_schema;
  source = source_for_server server_name;
  status = ToolStatus.available;
  last_seen = some now;
  error = none;
}

unfoldable pub is_changed : ToolSchema → ToolDefinition → Bool
is_changed schema existing =
    not (existing.description == schema.description)
    || not (eq_value existing.input_schema schema.input_schema)

-- The tool behind one round of the loop.
unfoldable pub merged : String → ℕ → ToolSchema → Option ToolDefinition → ToolDefinition
merged server_name now schema none = with_tags (new_tool server_name now schema)
merged server_name now schema (some existing) =
    with_tags (refreshed server_name now schema existing)

unfoldable pub is_update : ToolSchema → Option ToolDefinition → Bool
is_update schema none = false
is_update schema (some existing) = is_changed schema existing

-- One round of the loop over the tools of a server.
unfoldable pub merge_tool : String → ℕ → ToolSchema → Merge → Merge
merge_tool server_name now schema m =
    let known = lookup schema.name m.tools in
    record {
      tools = insert schema.name (merged server_name now schema known) m.tools;
      added = if is_some known then m.added else m.added ++ schema.name ∷ [];
      updated = if is_update schema known then m.updated ++ schema.name ∷ [] else m.updated;
      seen = m.seen ++ schema.name ∷ [];
    }

unfoldable pub merge_server : String → ℕ → List ToolSchema → Merge → Merge
merge_server server_name now [] m = m
merge_server server_name now (schema ∷ schemas) m =
    merge_server server_name now schemas (merge_tool server_name now schema m)

unfoldable pub merge_servers : ℕ → Assoc (List ToolSchema) → Merge → Merge
merge_servers now [] m = m
merge_servers now ((server_name, schemas) ∷ servers) m =
    merge_servers now servers (merge_server server_name now schemas m)

abbrev pub start_merge : ToolRegistry → Merge
start_merge s = record { tools = s.tools; added = []; updated = []; seen = [] }

unfoldable pub unavailable : ToolDefinition → ToolDefinition
unavailable tool = record tool { status = ToolStatus.unavailable }

-- The loop that marks tools: `gone` says of a tool whether it is to be marked. The result is the
-- tools and the names that were marked, in the order of the dict.
unfoldable pub mark :
    (String → ToolDefinition → Bool) → Assoc ToolDefinition → Assoc ToolDefinition × List String
mark gone [] = ([], [])
mark gone ((name, tool) ∷ tools) =
    let (rest, removed) = mark gone tools in
    if gone name tool
    then ((name, unavailable tool) ∷ rest, name ∷ removed)
    else ((name, tool) ∷ rest, removed)

-- In `refresh`: a tool known before, of an MCP or native server, that no server reported. `old_tools`
-- is a set, whose order is open; the names are in the order of the dict here.
unfoldable pub is_gone : List String → List String → String → ToolDefinition → Bool
is_gone old seen name tool = mem name old && (is_remote tool.source && not (mem name seen))

-- In `refresh_server`: a tool of the server that it did not report.
unfoldable pub is_gone_from : String → List String → String → ToolDefinition → Bool
is_gone_from server_name seen name tool =
    is_remote tool.source
    && (or_else tool.server_name "" == server_name && is_some tool.server_name)
    && not (mem name seen)

-- The registry and the result after the marking.
unfoldable pub conclude :
    (String → ToolDefinition → Bool) → Merge → ToolRegistry → RefreshResult × ToolRegistry
conclude gone m s =
    let (tools, removed) = mark gone m.tools in
    let r : RefreshResult = record {
      total_tools = length tools;
      added = m.added;
      removed = removed;
      updated = m.updated;
      errors = [];
    } in
    (r, fire_tools_changed r (update_metrics (record s { tools = tools })))

-- `refresh`, with what the servers report.
unfoldable pub refresh : ℕ → Assoc (List ToolSchema) → ToolRegistry → RefreshResult × ToolRegistry
refresh now tools_by_server s =
    let m = merge_servers now tools_by_server (start_merge s) in
    conclude (is_gone (keys s.tools) m.seen) m s

abbrev pub failed_refresh : String → Exc → ToolRegistry → RefreshResult
failed_refresh server_name e s = record {
  total_tools = length s.tools;
  added = [];
  removed = [];
  updated = [];
  errors = (server_name, e) ∷ [];
}

-- `refresh_server`: `none` if the server has no connection, else what the connection's
-- `refresh_tools` returns or raises.
unfoldable pub refresh_server :
    ℕ → String → Option (Result (List ToolSchema)) → ToolRegistry → RefreshResult × ToolRegistry
refresh_server now server_name none s =
    (failed_refresh server_name (Exc.other "Server not found") s, s)
refresh_server now server_name (some (err e)) s =
    let r = failed_refresh server_name e s in (r, fire_tools_changed r (update_metrics s))
refresh_server now server_name (some (ok schemas)) s =
    let m = merge_server server_name now schemas (start_merge s) in
    conclude (is_gone_from server_name m.seen) m s

-- `initialize`, and `on_config_change` behind the MCP manager's own change.
unfoldable pub initialize :
    Value → Bool → ℕ → Assoc (List ToolSchema) → ToolRegistry → RefreshResult × ToolRegistry
initialize schema enabled now tools_by_server s =
    refresh now tools_by_server (register_system_tools schema enabled now s)
