-- ===== src/Runners/Names.antt =====
-- Tool names of src/ploston_core/runner_management/registry.py, `runner__mcp__tool`, and the
-- operations that look a tool up: `has_tool` and `get_runner_for_tool`.
use Prim.Native.Char.{Char, code}
use ploston_core.Prelude.{
  String, Bool, false, ◌&&◌, Option, none, some, List, [], ◌∷◌, ◌==◌, nat_eq, or_else, is_some,
  if◌then◌else◌,
}
use ploston_core.Prelude.Texts.{prepend, join}
use ploston_core.Prelude.Dicts.{any, first}
use ploston_core.Runners.{
  Tool, text, entry, Runner, is_connected, Registry, get_by_name, list_connected,
}

abbrev pub prepend_held : Option Char → List String → List String
prepend_held none parts = parts
prepend_held (some c) parts = prepend c parts

-- `name.split("__")` from a position on; `held` is an underscore before it that is in no separator.
unfoldable pub split_from : Option Char → String → List String
unfolding prepend
split_from held String.[] = prepend_held held ("" ∷ [])
split_from held (String.◌∷◌ c s) =
    let fresh = split_from none s in
    let kept = split_from (some c) s in
    if nat_eq (code c) b'_'
    then if is_some held then "" ∷ fresh else kept
    else prepend_held held (prepend c fresh)

-- `name.split("__")`. A name without "__" is its only part.
unfoldable pub split_name : String → List String
unfolding split_from
split_name name = split_from none name

-- The runner and the tool of a name `runner__mcp__tool`.
unfoldable pub qualified : String → Option (String × String)
unfolding split_name join
qualified name = elim (split_name name) [
  | runner ∷ mcp ∷ tool ∷ more ↦ some (runner, join "__" (mcp ∷ tool ∷ more))
  | _ ↦ none
]

-- `_get_tool_name`
unfoldable pub get_tool_name : Tool → String
get_tool_name (text name) = name
get_tool_name (entry name) = or_else name ""

-- The loops over `available_tools`.
unfoldable pub offers : String → Runner → Bool
unfolding any get_tool_name
offers name r = any (λ t. get_tool_name t == name) r.available_tools

unfoldable pub stripped : Option (String × String) → String → String
stripped none name = name
stripped (some (runner, tool)) name = tool

-- A connected runner, and one that offers a tool.
unfoldable pub serves : String → Option Runner → Bool
serves name none = false
serves name (some r) = is_connected r && offers name r

unfoldable pub has_tool : String → String → Registry → Bool
has_tool runner_name tool_name s =
    serves (stripped (qualified tool_name) tool_name) (get_by_name runner_name s)

unfoldable pub serving : String → Option Runner → Option Runner
serving name none = none
serving name (some r) = if is_connected r && offers name r then some r else none

-- A qualified name asks its own runner only, any other name the first connected runner that offers
-- the tool.
unfoldable pub runner_for : Option (String × String) → String → Registry → Option Runner
runner_for none name s = first (offers name) (list_connected s)
runner_for (some (runner, tool)) name s = serving tool (get_by_name runner s)

unfoldable pub get_runner_for_tool : String → Registry → Option Runner
get_runner_for_tool tool_name s = runner_for (qualified tool_name) tool_name s
