-- ===== src/Auth/Access.antt =====
-- src/ploston_core/auth/tool_filter.py: the servers that a principal may use, with the filter of a
-- bridge. A tool without a server is a system or native tool.
use ploston_core.Prelude.{
  String, Bool, true, false, not, Option, none, some, List, [], ◌∷◌, mem, select,
}
use ploston_core.Tools.{ToolDefinition}
use ploston_core.Auth.{ToolAccessMode, ToolAccess, can_access_server, Principal}

unfoldable pub is_all : ToolAccessMode → Bool
is_all ToolAccessMode.all = true
is_all ToolAccessMode.allowlist = false
is_all ToolAccessMode.denylist = false

abbrev pub allow : List String → ToolAccess
allow servers = record { mode = ToolAccessMode.allowlist; servers = servers }

-- The intersection with a bridge's servers.
unfoldable pub intersect : ToolAccessMode → List String → List String → ToolAccess
intersect ToolAccessMode.all servers bridge = allow bridge
intersect ToolAccessMode.allowlist servers bridge = allow (select (λ s. mem s bridge) servers)
intersect ToolAccessMode.denylist servers bridge = allow (select (λ s. not (mem s servers)) bridge)

-- An empty list of servers is no filter, as `None` is.
unfoldable pub compute_effective_access : ToolAccess → Option (List String) → ToolAccess
compute_effective_access access none = access
compute_effective_access access (some []) = access
compute_effective_access access (some (s ∷ ss)) = intersect access.mode access.servers (s ∷ ss)

abbrev pub admits : ToolAccess → Option String → Bool
admits access none = is_all access.mode
admits access (some server_name) = can_access_server access server_name

-- `none` is the mode without authentication.
unfoldable pub filter_tools_by_principal :
    List ToolDefinition → Option Principal → Option (List String) → List ToolDefinition
filter_tools_by_principal tools none bridge = tools
filter_tools_by_principal tools (some p) bridge =
    select (λ t. admits (compute_effective_access p.tool_access bridge) t.server_name) tools

unfoldable pub can_access_tool : Option String → Option Principal → Option (List String) → Bool
can_access_tool server none bridge = true
can_access_tool none (some p) bridge = is_all p.tool_access.mode
can_access_tool (some server_name) (some p) bridge =
    can_access_server (compute_effective_access p.tool_access bridge) server_name
