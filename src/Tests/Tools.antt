-- ===== src/Tests/Tools.antt =====
-- A tool registry with one MCP server, calls of its tools, and the theorems applied to them.
use ploston_core.Prelude.{ℕ, ◌+◌, String, ◌≡◌, refl, true, false, none, some, List, [], ◌∷◌, mem}
use ploston_core.Prelude.Assoc.{Assoc, lookup, insert}
use ploston_core.Prelude.Texts.{join, prepend}
use ploston_core.Errors.{Exc, Result, err, ael}
use ploston_core.Types.{ToolSource, ToolStatus}
use ploston_core.Value.{Value, end, field}
use ploston_core.Runners.Names.{split_name, split_from}
use ploston_core.Tools.{
  ToolSchema, ToolDefinition, ToolRegistry, is_available, source_for_server, update_metrics,
  fire_tools_changed,
}
use ploston_core.Tools.Refresh.{refresh, merge_servers, merge_server, merge_tool, conclude}
use ploston_core.Tools.Gathered.{names_from, reported}
use ploston_core.Tools.Status.{IsRefreshed, refresh-IsRefreshed}
use ploston_core.Invoker.{
  Backends, normalize_tool_name, runner_of, parse_tool_prefix, format_tool_name, invoke,
}
use ploston_core.Invoker.Names.{is_plain, parse_tool_prefix-format_tool_name}
use ploston_core.Invoker.Gate.{IsGated, invoke-IsGated}
use ploston_core.Invoker.Native.{invoke-native}

abbrev schema_of : String → ToolSchema
schema_of name = record {
  name = name;
  description = "a tool";
  input_schema = Value.dict (field "type" (Value.str "object") end);
  output_schema = none;
}

abbrev pub nothing : ToolRegistry
nothing = record { tools = []; counts = none; listening = true; notified = 0 }

abbrev report : Assoc (List ToolSchema)
report = ("web", schema_of "search" ∷ schema_of "fetch" ∷ []) ∷ []

abbrev registry : ToolRegistry
registry = (refresh 1 report nothing).1

-- The web server lost one of its tools.
abbrev later : Assoc (List ToolSchema)
later = ("web", schema_of "search" ∷ []) ∷ []

abbrev pub search : ToolDefinition
search = record {
  name = "search";
  description = "a tool";
  source = ToolSource.mcp;
  server_name = some "web";
  tags = "kind:tool" ∷ "source:mcp" ∷ "server:web" ∷ [];
  input_schema = Value.dict (field "type" (Value.str "object") end);
  output_schema = none;
  status = ToolStatus.available;
  last_seen = some 1;
  error = none;
}

notified_once : registry.notified ≡ 1
unfolding refresh conclude fire_tools_changed update_metrics merge_servers merge_server merge_tool
    lookup insert
notified_once = refl

refresh-IsRefreshed_example :
    IsRefreshed later registry.tools (refresh 2 later registry).1.tools "fetch"
refresh-IsRefreshed_example = refresh-IsRefreshed 2 later registry "fetch"

abbrev pub dispatch : String → String → Assoc Value → ℕ → ℕ → Result Value × ℕ
dispatch runner tool params timeout w = (err (Exc.other "TimeoutError"), w + timeout)

-- Every MCP call ends in an exception; the state counts the calls.
abbrev pub backends : Backends ℕ
backends = record {
  dispatch = some dispatch;
  call_tool = λ server tool params timeout w. (err (Exc.other "ConnectionError"), w + 1);
  execute = λ code context w. (err (Exc.other "SandboxError"), w + 1);
  has_inputs = λ v. false;
}

direct_search : normalize_tool_name "search" ≡ none
unfolding normalize_tool_name runner_of parse_tool_prefix split_name split_from prepend
direct_search = refl

direct_fetch : normalize_tool_name "fetch" ≡ none
unfolding normalize_tool_name runner_of parse_tool_prefix split_name split_from prepend
direct_fetch = refl

qualified : normalize_tool_name "mac__fs__read" ≡ some ("mac", "fs__read")
unfolding normalize_tool_name runner_of parse_tool_prefix split_name split_from prepend join
qualified = refl

invoke-IsGated_example : IsGated backends registry "search" [] none 0
invoke-IsGated_example = invoke-IsGated backends registry "search" [] none 0 direct_search

-- The tool `fetch` of two servers; the native one is the last.
abbrev both : Assoc (List ToolSchema)
both =
    ("web", schema_of "search" ∷ schema_of "fetch" ∷ [])
    ∷ ("native_tools", schema_of "fetch" ∷ [])
    ∷ ("other", schema_of "find" ∷ [])
    ∷ []

invoke-native_example :
    (t : ToolDefinition) × (lookup "fetch" (refresh 2 both nothing).1.tools ≡ some t)
    × (is_available t.status ≡ true)
    × (invoke backends (refresh 2 both nothing).1 "fetch" [] none 0
        ≡ (err (ael "INTERNAL_ERROR" "fetch"), 0))
unfolding source_for_server mem names_from reported
invoke-native_example =
    invoke-native backends 2 (("web", schema_of "search" ∷ schema_of "fetch" ∷ []) ∷ [])
      (("other", schema_of "find" ∷ []) ∷ []) "native_tools" (schema_of "fetch" ∷ []) nothing
      "fetch" [] none 0 refl refl refl direct_fetch

parse_tool_prefix-format_tool_name_example :
    parse_tool_prefix (format_tool_name "mac" "fs" "_read__all") ≡ some ("mac", "fs", "_read__all")
unfolding is_plain
parse_tool_prefix-format_tool_name_example =
    parse_tool_prefix-format_tool_name "mac" "fs" "_read__all" refl refl

-- A runner's name that ends in an underscore is not read back.
underscore_moves :
    parse_tool_prefix (format_tool_name "mac_" "fs" "read") ≡ some ("mac", "_fs", "read")
unfolding parse_tool_prefix format_tool_name split_name split_from prepend join
underscore_moves = refl
