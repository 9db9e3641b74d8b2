-- ===== src/Tests/Workflows.antt =====
-- The validation and the registration of small workflows.
use mathlib.Core.Logic.{◌↔◌}
use ploston_core.Prelude.{◌≡◌, refl, String, true, false, none, some, List, [], ◌∷◌, mem}
use ploston_core.Prelude.Assoc.{lookup, insert, erase, values}
use ploston_core.Prelude.Texts.{join}
use ploston_core.Errors.{Result, ok}
use ploston_core.Workflow.{StepDefinition, WorkflowDefinition}
use ploston_core.Validator.{WorkflowValidator}
use ploston_core.Validator.Checks.{validate}
use ploston_core.Validator.WellFormed.{IsWellFormed}
use ploston_core.Validator.Sound.{validate-IsWellFormed}
use ploston_core.Registrations.{
  WorkflowRegistry, run_task, run_all, settle, fire_tools_changed, update_metrics, register,
  check_registrable, check_workflow, unregister, get,
}
use ploston_core.Registrations.Yaml.{register_from_yaml, registered_from, set_source}
use ploston_core.Registrations.Starting.{load_all, initialize}
use ploston_core.Registrations.Accepted.{IsRegistered, register-IsRegistered}
use ploston_core.Registrations.Removed.{unregister-keeps_files}
use ploston_core.Tests.Templates.{py, texts_with}
use ploston_core.Tests.Tools.{nothing, search}
use ploston_core.Tools

abbrev pub validator : WorkflowValidator
validator = record {
  texts = texts_with py;
  tools = record nothing { tools = ("search", search) ∷ [] };
  runners = none;
}

abbrev pub code_step : String → List String → StepDefinition
code_step id deps = record {
  id = id;
  tool = none;
  code = some "result = 1";
  mcp = none;
  params = [];
  depends_on = some deps;
  on_error = none;
  timeout = none;
  retry = none;
  on_missing_tool = none;
  when = none;
}

abbrev pub flow : String → WorkflowDefinition
flow name = record {
  name = name;
  version = "1.0";
  defaults = none;
  inputs = [];
  steps = code_step "b" ("a" ∷ []) ∷ code_step "a" [] ∷ [];
  outputs = record { name = "out"; from_path = some "steps.b.output"; value = none } ∷ [];
}

-- The text of a workflow is its name.
abbrev pub parse : String → Result WorkflowDefinition
parse text = ok (flow text)

abbrev pub workflows : WorkflowRegistry
workflows = record {
  workflows = [];
  validator = validator;
  files = ("report", "report") ∷ [];
  connected = false;
  redis = [];
  tasks = [];
  listening = true;
  notified = 0;
  gauge = none;
}

validate-IsWellFormed_example :
    ((validate validator true (flow "report")).valid ≡ true)
    ↔ IsWellFormed validator true (flow "report")
validate-IsWellFormed_example = validate-IsWellFormed validator true (flow "report")

register-IsRegistered_example :
    IsRegistered (flow "report") true workflows (register "now" (flow "report") true workflows)
register-IsRegistered_example = register-IsRegistered "now" (flow "report") true workflows

unregister-keeps_files_example :
    (settle
      (unregister "report" (initialize parse "now" (some ("report" ∷ [])) [] workflows).1).1).files
    ≡ ("report", "report") ∷ []
unregister-keeps_files_example =
    unregister-keeps_files parse "now" "report" (some ("report" ∷ [])) [] workflows refl refl refl

-- The name of a tool and that of a management tool.
refused_names :
    (get "search" (register "now" (flow "search") false workflows).1 ≡ none)
    × (get "run" (register "now" (flow "run") false workflows).1 ≡ none)
    × (get "workflow_run" (register "now" (flow "workflow_run") false workflows).1
        ≡ some (flow "workflow_run"))
unfolding get register check_registrable check_workflow fire_tools_changed update_metrics mem insert
    lookup Tools.get join
refused_names = (refl, refl, refl)

-- A start, the removal of its workflow, and the next start.
abbrev pub restarted : WorkflowRegistry
restarted =
    let removed =
      settle
        (unregister "report" (initialize parse "now" (some ("report" ∷ [])) [] workflows).1).1 in
    (initialize parse "now" (some (values removed.files)) [] (record removed { workflows = [] })).1

reloaded : get "report" restarted ≡ some (flow "report")
unfolding get initialize load_all register_from_yaml registered_from set_source unregister run_all
    run_task register check_registrable check_workflow fire_tools_changed update_metrics mem insert
    erase lookup Tools.get join
reloaded = refl
