-- ===== src/Registrations.antt =====
-- `WorkflowRegistry` of src/ploston_core/workflow/registry.py. YAML is read by a parameter. The tasks
-- that it starts in the background are kept in their order and run by `run_task`; an event loop is
-- taken to be running. Files are the texts of the workflow directory by their stems.
pub mod Yaml
pub mod Starting
pub mod Accepted
pub mod Removed
use Prim.Native.String
use ploston_core.Prelude.{
  ℕ, ◌+◌, String, Bool, true, false, not, ◌&&◌, Option, none, some, List, [], ◌∷◌, ◌++◌, map, ◌==◌,
  ltb, length, mem, is_some, truthy, if◌then◌else◌,
}
use ploston_core.Prelude.Assoc.{Assoc, lookup, insert, erase, values}
use ploston_core.Prelude.Texts.{join}
use ploston_core.Errors.{Exc, ael, Result, ok, err}
use ploston_core.Validation.{ValidationIssue, ValidationResult}
use ploston_core.Workflow.{WorkflowDefinition}
use ploston_core.Tools
use ploston_core.Validator.{WorkflowValidator}
use ploston_core.Validator.Checks.{validate}

pub record WorkflowEntry : Type 0 where
  pub workflow : WorkflowDefinition
  pub registered_at : String
  pub source : String

pub data Task : Type 0 where
  persist delete_persisted : String → String → Task

pub record WorkflowRegistry : Type 0 where
  pub workflows : Assoc WorkflowEntry
  -- It holds the tool registry and the runner registry, too.
  pub validator : WorkflowValidator
  pub files : Assoc String
  -- Whether there is a Redis store that is connected, and what it holds.
  pub connected : Bool
  pub redis : Assoc String
  pub tasks : List Task
  -- Whether there is a callback for changes, and its calls.
  pub listening : Bool
  pub notified : ℕ
  -- The gauge of the metrics, if there are some.
  pub gauge : Option ℕ

abbrev pub reserved_names : List String
reserved_names =
    "schema" ∷ "list" ∷ "get" ∷ "create" ∷ "update" ∷ "delete" ∷ "validate" ∷ "tool_schema" ∷ "run"
    ∷ []

unfoldable pub fire_tools_changed : WorkflowRegistry → WorkflowRegistry
fire_tools_changed s = if s.listening then record s { notified = s.notified + 1 } else s

abbrev pub measured : Option ℕ → ℕ → Option ℕ
measured none n = none
measured (some m) n = some n

unfoldable pub update_metrics : WorkflowRegistry → WorkflowRegistry
update_metrics s = record s { gauge = measured s.gauge (length s.workflows) }

abbrev pub workflow_key : String → String
workflow_key name = String.◌++◌ "workflows:" name

-- `_persist` and `_delete_persisted`. Only a workflow of the API is deleted.
unfoldable pub run_task : Task → WorkflowRegistry → WorkflowRegistry
run_task (persist name yaml_content) s = record s {
  files = insert name yaml_content s.files;
  redis = if s.connected then insert (workflow_key name) yaml_content s.redis else s.redis;
}
run_task (delete_persisted name source) s =
    if source == "api"
    then record s {
      files = erase name s.files;
      redis = if s.connected then erase (workflow_key name) s.redis else s.redis;
    }
    else s

abbrev pub start_task : Task → WorkflowRegistry → WorkflowRegistry
start_task task s = record s { tasks = s.tasks ++ task ∷ [] }

-- The tasks run in the order in which they were started.
unfoldable pub run_all : List Task → WorkflowRegistry → WorkflowRegistry
run_all [] s = s
run_all (t ∷ ts) s = run_all ts (run_task t s)

abbrev pub settle : WorkflowRegistry → WorkflowRegistry
settle s = run_all s.tasks (record s { tasks = [] })

abbrev pub reserved_error : String → Exc
reserved_error name = ael "INPUT_INVALID" (
    join "" (
      "Workflow name '" ∷ name
      ∷ "' is reserved. Reserved names: create, delete, get, list, run, schema, tool_schema, update, validate"
      ∷ []))

abbrev pub collision_error : String → Exc
collision_error name = ael "INPUT_INVALID" (
    join "" (
      "Workflow name '" ∷ name
      ∷ "' collides with an existing CP tool of the same name. Choose a different name." ∷ []))

-- The tests on the name, which come before the validation.
unfoldable pub check_registrable : String → WorkflowRegistry → Result (Unit {0})
check_registrable name s =
    if mem name reserved_names
    then err (reserved_error name)
    else if is_some (Tools.get name s.validator.tools)
    then err (collision_error name)
    else ok tt

abbrev pub passed : ValidationResult
passed = record { valid = true; errors = []; warnings = [] }

abbrev pub error_text : List ValidationIssue → String
error_text errors = join "; " (map (λ e. join ": " (e.path ∷ e.message ∷ [])) errors)

abbrev pub invalid_error : ValidationResult → Exc
invalid_error result = ael "INPUT_INVALID" (error_text result.errors)

unfoldable pub check_workflow :
    Bool → WorkflowDefinition → WorkflowRegistry → Result ValidationResult
check_workflow false w s = ok passed
check_workflow true w s =
    let result = validate s.validator true w in
    if result.valid then ok result else err (invalid_error result)

abbrev pub new_entry : String → WorkflowDefinition → WorkflowEntry
new_entry now w = record { workflow = w; registered_at = now; source = "api" }

abbrev pub store : String → WorkflowDefinition → WorkflowRegistry → WorkflowRegistry
store now w s = record s { workflows = insert w.name (new_entry now w) s.workflows }

unfoldable pub register :
    String
    → WorkflowDefinition
    → Bool
    → WorkflowRegistry
    → Result ValidationResult × WorkflowRegistry
register now w validated s = elim (check_registrable w.name s) [
  | err raised ↦ (err raised, s)
  | ok _ ↦ elim (check_workflow validated w s) [
    | err raised ↦ (err raised, s)
    | ok result ↦ (ok result, fire_tools_changed (update_metrics (store now w s)))
  ]
]

unfoldable pub unregister : String → WorkflowRegistry → Bool × WorkflowRegistry
unregister name s = elim (lookup name s.workflows) [
  | none ↦ (false, s)
  | some e ↦ (
    true,
    fire_tools_changed (
        update_metrics (
          start_task (delete_persisted name e.source)
            (record s { workflows = erase name s.workflows }))),
  )
]

abbrev pub workflow_of : Option WorkflowEntry → Option WorkflowDefinition
workflow_of none = none
workflow_of (some e) = some e.workflow

unfoldable pub get : String → WorkflowRegistry → Option WorkflowDefinition
get name s = workflow_of (lookup name s.workflows)

unfoldable pub get_or_raise : String → WorkflowRegistry → Result WorkflowDefinition
get_or_raise name s = elim (get name s) [
  | none ↦ err (ael "WORKFLOW_NOT_FOUND" name)
  | some w ↦ ok w
]

unfoldable pub list_workflows : WorkflowRegistry → List WorkflowDefinition
list_workflows s = map (λ e. e.workflow) (values s.workflows)
