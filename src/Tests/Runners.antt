-- ===== src/Tests/Runners.antt =====
-- A registry with one runner, and the theorems on registries applied to it.
use Prim.Native.String
use ploston_core.Prelude.{String, ◌≡◌, refl, ◌≢◌, false, none, some, [], ◌∷◌, arith, eq_iff, truthy}
use ploston_core.Prelude.Assoc.{lookup, insert}
use ploston_core.Errors.{Result}
use ploston_core.Runners.{
  Runner, Registry, RunnerStatus, Tool, Change, new_runner, create, get_by_token, update_noticed,
  empty_registry, get_indexed, update, add_runner, tools_changed, set_fields, set_field,
  get_by_name, is_connected,
}
use ploston_core.Runners.Names.{
  qualified, get_runner_for_tool, runner_for, serving, split_name, split_from, offers,
  get_tool_name,
}
use ploston_core.Prelude.Texts.{join, prepend}
use ploston_core.Prelude.Dicts.{any}
use ploston_core.Runners.Consistent.{IsConsistent}
use ploston_core.Runners.History.{
  Operation, created, noticed, run, IsFresh, Reachable, start, after, IsSound, Reachable-IsSound,
}
use ploston_core.Runners.Tokens.{IsRevoked, delete-IsRevoked, IsRegistered, create-IsRegistered}
use ploston_core.Runners.Tools.{IsRouted, get_runner_for_tool-IsRouted}

abbrev pub hash_token : String → String
hash_token t = String.◌++◌ "#" t

abbrev pub empty : Registry
empty = empty_registry none false

abbrev pub creation : Operation
creation = created "runner_1" "secret" "mac" none none 5

abbrev pub connection : Operation
connection =
    noticed "runner_1"
      (Change.set_status RunnerStatus.connected ∷ Change.set_tools (Tool.text "fs__read" ∷ []) ∷ [])

-- The runner `mac` is created, then connects with a tool.
abbrev pub registry : Registry
registry = run hash_token connection (run hash_token creation empty)

abbrev first_id : String
first_id = "runner_1"

not_empty : first_id ≢ ""
not_empty e = absurd (ground (arith, (eq_iff first_id "").1 e))

registry-Reachable : Reachable hash_token registry
unfolding IsFresh lookup empty_registry
registry-Reachable = after connection (after creation (start none false) (not_empty, refl, refl)) tt

Reachable-IsSound_example : IsSound registry
Reachable-IsSound_example = Reachable-IsSound hash_token registry registry-Reachable

registry-IsConsistent : IsConsistent registry
registry-IsConsistent = (Reachable-IsSound hash_token registry registry-Reachable).consistent

abbrev pub mac : Runner
mac = record (new_runner hash_token "runner_1" "secret" "mac" none 5) {
  status = RunnerStatus.connected;
  available_tools = Tool.text "fs__read" ∷ [];
}

found : get_by_token hash_token "secret" registry ≡ some mac
unfolding run get_by_token get_indexed truthy lookup update_noticed update create empty_registry
    add_runner insert new_runner tools_changed set_fields set_field
found = refl

delete-IsRevoked_example : IsRevoked hash_token "secret" mac registry
delete-IsRevoked_example =
    delete-IsRevoked hash_token registry "secret" mac registry-IsConsistent found

made :
    (create hash_token "runner_1" "secret" "mac" none none 5 empty).0
    ≡ Result.ok (new_runner hash_token "runner_1" "secret" "mac" none 5, "secret")
unfolding create lookup empty_registry
made = refl

create-IsRegistered_example :
    IsRegistered hash_token "mac" "secret"
      (new_runner hash_token "runner_1" "secret" "mac" none 5)
      (create hash_token "runner_1" "secret" "mac" none none 5 empty).1
create-IsRegistered_example =
    create-IsRegistered hash_token "runner_1" "secret" "mac" none none 5 empty
      (new_runner hash_token "runner_1" "secret" "mac" none 5) "secret" not_empty made

routed : get_runner_for_tool "mac__fs__read" registry ≡ some mac
unfolding get_runner_for_tool run runner_for serving qualified split_name split_from join prepend
    get_by_name is_connected offers any get_tool_name get_indexed truthy lookup update_noticed
    update create empty_registry add_runner insert new_runner tools_changed set_fields set_field
routed = refl

get_runner_for_tool-IsRouted_example : IsRouted "mac__fs__read" registry mac
get_runner_for_tool-IsRouted_example =
    get_runner_for_tool-IsRouted "mac__fs__read" registry mac registry-IsConsistent routed
