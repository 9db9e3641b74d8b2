-- ===== src/Tests/Frontend.antt =====
-- Calls of the MCP frontend, and the theorems applied to them.
use ploston_core.Prelude.{
  ℕ, ◌+◌, String, ◌≡◌, refl, false, none, some, [], ◌∷◌, mem, truthy, ◌==◌, if◌then◌else◌,
}
use ploston_core.Prelude.Assoc.{Assoc, lookup, insert}
use ploston_core.Prelude.Strings.{starts_with}
use ploston_core.Prelude.Texts.{prepend}
use ploston_core.Errors.{Exc, Result, ok, err, ael}
use ploston_core.Value.{Value, Fields, end, field}
use ploston_core.Modes.{Mode, same_mode}
use ploston_core.Runners.{
  is_connected, get_by_name, get_indexed, update_noticed, update, create, empty_registry,
  add_runner, new_runner, tools_changed, set_fields, set_field,
}
use ploston_core.Runners.History.{run}
use ploston_core.Runners.Names.{split_name, split_from}
use ploston_core.Runners.Dispatch.{dispatch, sent}
use ploston_core.Registrations.{
  register, check_registrable, check_workflow, fire_tools_changed, update_metrics,
}
use ploston_core.Registrations
use ploston_core.Tools
use ploston_core.Invoker
use ploston_core.Invoker.Names.{is_plain}
use ploston_core.Invoker.{invoke, parse_tool_prefix, format_tool_name}
use ploston_core.Frontend.{
  given, Handlers, Frontend, is_mgmt_tool, is_config_name, runner_prefix, from_runner, from_engine,
  handle_tools_call, route, call_managed, labelled, runner_error,
}
use ploston_core.Frontend.Gated.{swapped, handle_tools_call-swapped}
use ploston_core.Frontend.Reached.{is_reached, handle_tools_call-register, handle_tools_call-runner}
use ploston_core.Tests.Runners.{registry, mac}
use ploston_core.Tests.Tools.{backends}
use ploston_core.Tests.Workflows.{flow, workflows}

-- A runner's answers: none in time to `read`, else a dict with an output.
abbrev send : String → String → Assoc Value → ℕ → ℕ → Result Fields × ℕ
send id tool arguments timeout w = (
  if tool == "fs__read"
      then err (Exc.other "TimeoutError")
      else ok (field "output" (Value.str "done") end),
  w + timeout,
)

abbrev answered : String → Assoc Value → ℕ → Result Fields × ℕ
answered name arguments w = (ok (field "answer" (Value.str name) end), w + 1)

abbrev handlers : Handlers ℕ
handlers = record {
  configure = some answered;
  manage = some answered;
  send = send;
  execute = λ name arguments w. (err (ael "WORKFLOW_NOT_FOUND" name), w + 1000);
  backends = record backends { dispatch = some (dispatch send registry) };
  str = λ v. "a value";
  dumps = λ v. ok "{}";
  message = λ code detail. code;
}

-- Handlers none of which is there or answers.
abbrev silent : Handlers ℕ
silent = record handlers {
  configure = none;
  manage = none;
  execute = λ name arguments w. (err Exc.value_error, w);
}

abbrev frontend : Mode → String → Frontend
frontend mode name = record {
  mode = mode;
  tools = workflows.validator.tools;
  workflows = (register "now" (flow name) false workflows).1;
  runners = some registry;
  connections = "runner_1" ∷ [];
}

handle_tools_call-swapped_example :
    handle_tools_call handlers (frontend Mode.configuration "report") (some "report") [] 0
    ≡ handle_tools_call
        (swapped Mode.configuration handlers silent)
        (frontend Mode.configuration "report")
        (some "report")
        []
        0
handle_tools_call-swapped_example =
    handle_tools_call-swapped handlers silent (frontend Mode.configuration "report") (some "report")
      [] 0 refl

-- The frontend with no workflow, and with one that is registered.
abbrev fresh : Frontend
fresh = record (frontend Mode.running "report") { workflows = workflows }

accepted :
    register "now" (flow "report") false workflows
    ≡ (ok Registrations.passed, (frontend Mode.running "report").workflows)
unfolding register check_registrable check_workflow fire_tools_changed update_metrics mem insert
    lookup Tools.get
accepted = refl

handle_tools_call-register_example :
    handle_tools_call handlers (frontend Mode.running "report") (some "report") [] 0
    ≡ from_engine handlers (handlers.execute "report" [] 0)
unfolding is_reached truthy is_config_name starts_with runner_prefix parse_tool_prefix split_name
    split_from prepend is_mgmt_tool mem
handle_tools_call-register_example =
    handle_tools_call-register handlers fresh (frontend Mode.running "report").workflows "now"
      (flow "report") false Registrations.passed "report" [] 0 accepted refl refl

found : get_by_name "mac" registry ≡ some mac
unfolding get_by_name get_indexed truthy lookup run update_noticed update create empty_registry
    add_runner insert new_runner tools_changed set_fields set_field
found = refl

no_config_tool : is_config_name (format_tool_name "mac" "fs" "read") ≡ false
unfolding is_config_name starts_with format_tool_name
no_config_tool = refl

handle_tools_call-runner_example :
    (handle_tools_call handlers
        (frontend Mode.configuration "report")
        (some (format_tool_name "mac" "fs" "read"))
        []
        0
      ≡ from_runner handlers (labelled "mac" "fs__read") (send "runner_1" "fs__read" [] 60 0))
    × (invoke handlers.backends workflows.validator.tools
          (format_tool_name "mac" "fs" "read")
          []
          (some 5)
          0
        ≡ Invoker.from_runner handlers.backends
            (sent "fs__read" (send "runner_1" "fs__read" [] 5 0)))
unfolding is_connected mem new_runner is_plain
handle_tools_call-runner_example =
    handle_tools_call-runner handlers (frontend Mode.configuration "report") registry mac "mac" "fs"
      "read" [] (some 5) 0 refl found refl refl refl refl refl refl refl no_config_tool

-- A timeout, while the mode is CONFIGURATION; a workflow that has a management tool's name.
timed_out :
    handle_tools_call handlers
      (frontend Mode.configuration "report")
      (some (format_tool_name "mac" "fs" "read"))
      []
      0
    ≡ (err (ael "TOOL_TIMEOUT" "mac:fs__read"), 60)
unfolding from_runner runner_error
timed_out = handle_tools_call-runner_example.0

shadowed :
    (Registrations.get "workflow_run" (frontend Mode.running "workflow_run").workflows
      ≡ some (flow "workflow_run"))
    × (handle_tools_call handlers (frontend Mode.running "workflow_run") (some "workflow_run") [] 0
        ≡ (ok (given (field "answer" (Value.str "workflow_run") end)), 1))
unfolding handle_tools_call truthy route is_config_name starts_with runner_prefix parse_tool_prefix
    split_name split_from prepend call_managed is_mgmt_tool mem same_mode Registrations.get register
    check_registrable check_workflow fire_tools_changed update_metrics insert lookup Tools.get
shadowed = (refl, refl)
