-- ===== src/Registrations/Yaml.antt =====
-- `register_from_yaml`, `validate_yaml`, `register_validated` and `_on_file_change` of
-- `WorkflowRegistry`, src/ploston_core/workflow/registry.py. A parameter reads the YAML.
use ploston_core.Prelude.{String, Bool, true, false, not, ◌&&◌, none, some, [], ◌∷◌, if◌then◌else◌}
use ploston_core.Prelude.Assoc.{lookup, insert}
use ploston_core.Errors.{Exc, Result, ok, err}
use ploston_core.Validation.{ValidationResult}
use ploston_core.Workflow.{WorkflowDefinition}
use ploston_core.Validator.Checks.{validate}
use ploston_core.Registrations.{
  WorkflowEntry, WorkflowRegistry, persist, start_task, fire_tools_changed, update_metrics,
  check_registrable, new_entry, store, register,
}

-- The assignment of `source` in the stored entry.
unfoldable pub set_source : String → String → WorkflowRegistry → WorkflowRegistry
set_source name source s = elim (lookup name s.workflows) [
  | none ↦ s
  | some e ↦ record s { workflows = insert name (record e { source = source }) s.workflows }
]

abbrev pub source_of : Bool → String
source_of from_file = if from_file then "file" else "api"

-- What `register_from_yaml` does after the call of `register`.
unfoldable pub registered_from :
    WorkflowDefinition
    → String
    → Bool
    → Bool
    → Result ValidationResult × WorkflowRegistry
    → Result ValidationResult × WorkflowRegistry
registered_from w yaml_content from_file persisted (err raised, s) = (err raised, s)
registered_from w yaml_content from_file persisted (ok result, s) =
    let t = set_source w.name (source_of from_file) s in
    (
      ok result,
      if persisted && not from_file then start_task (persist w.name yaml_content) t else t,
    )

abbrev pub register_parsed :
    String
    → String
    → Bool
    → Bool
    → Bool
    → Result WorkflowDefinition
    → WorkflowRegistry
    → Result ValidationResult × WorkflowRegistry
register_parsed now yaml_content from_file persisted validated (err raised) s = (err raised, s)
register_parsed now yaml_content from_file persisted validated (ok w) s =
    registered_from w yaml_content from_file persisted (register now w validated s)

module _ (parse_workflow_yaml : String → Result WorkflowDefinition) where
  -- `from_file` says that there is a source path.
  unfoldable pub register_from_yaml :
      String
      → String
      → Bool
      → Bool
      → Bool
      → WorkflowRegistry
      → Result ValidationResult × WorkflowRegistry
  register_from_yaml now yaml_content from_file persisted validated s =
      register_parsed now yaml_content from_file persisted validated
        (parse_workflow_yaml yaml_content) s

  -- `_on_file_change`, with what reading the file gives. What is raised is logged.
  unfoldable pub on_file_change : String → Result String → WorkflowRegistry → WorkflowRegistry
  on_file_change now (err raised) s = s
  on_file_change now (ok yaml_content) s = (register_from_yaml now yaml_content true false true s).1

unfoldable pub validated_or :
    (Exc → String) → Result WorkflowDefinition → WorkflowRegistry → ValidationResult
validated_or show (err raised) s = record {
  valid = false;
  errors = record { path = "yaml"; message = show raised; severity = "error"; line = none } ∷ [];
  warnings = [];
}
validated_or show (ok w) s = validate s.validator true w

unfoldable pub validate_yaml :
    (String → Result WorkflowDefinition)
    → (Exc → String)
    → String
    → WorkflowRegistry
    → ValidationResult
validate_yaml parse_workflow_yaml show yaml_content s =
    validated_or show (parse_workflow_yaml yaml_content) s

unfoldable pub register_validated :
    String
    → WorkflowDefinition
    → String
    → Bool
    → WorkflowRegistry
    → Result WorkflowEntry × WorkflowRegistry
register_validated now w yaml_content persisted s = elim (check_registrable w.name s) [
  | err raised ↦ (err raised, s)
  | ok _ ↦
      let t = store now w s in
      (
        ok (new_entry now w),
        fire_tools_changed
            (update_metrics (if persisted then start_task (persist w.name yaml_content) t else t)),
      )
]
