-- ===== src/Tools/Listed.antt =====
-- `list_tools` of src/ploston_core/registry/registry.py: the tools that pass every given filter.
use ploston_core.Prelude.{
  String, Bool, true, false, ◌&&◌, Option, none, some, List, [], ◌∷◌, ◌==◌, mem, select, or_else,
  is_some,
}
use ploston_core.Prelude.Assoc.{values}
use ploston_core.Types.{ToolSource, ToolStatus}
use ploston_core.Tools.{ToolDefinition, ToolRegistry}

unfoldable pub same_source : ToolSource → ToolSource → Bool
same_source ToolSource.mcp ToolSource.mcp = true
same_source ToolSource.http ToolSource.http = true
same_source ToolSource.system ToolSource.system = true
same_source ToolSource.native ToolSource.native = true
same_source _ _ = false

unfoldable pub same_status : ToolStatus → ToolStatus → Bool
same_status ToolStatus.available ToolStatus.available = true
same_status ToolStatus.unavailable ToolStatus.unavailable = true
same_status ToolStatus.unknown ToolStatus.unknown = true
same_status _ _ = false

-- `tags.issubset(tool.tags)`
unfoldable pub has_all : List String → List String → Bool
has_all [] tags = true
has_all (t ∷ ts) tags = mem t tags && has_all ts tags

-- One filter: `none` lets every tool pass.
abbrev pub filter_by :
    {A : Type 0}
    → (A → ToolDefinition → Bool)
    → Option A
    → List ToolDefinition
    → List ToolDefinition
filter_by test none tools = tools
filter_by test (some a) tools = select (test a) tools

unfoldable pub list_tools :
    Option ToolSource
    → Option String
    → Option ToolStatus
    → Option (List String)
    → ToolRegistry
    → List ToolDefinition
list_tools source server_name status tags s =
    filter_by (λ a t. has_all a t.tags) tags
      (filter_by (λ a t. same_status t.status a) status
        (filter_by (λ a t. is_some t.server_name && or_else t.server_name "" == a) server_name
          (filter_by (λ a t. same_source t.source a) source (values s.tools))))

unfoldable pub list_available : ToolRegistry → List ToolDefinition
list_available = list_tools none none (some ToolStatus.available) none
