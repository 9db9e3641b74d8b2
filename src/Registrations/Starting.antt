-- ===== src/Registrations/Starting.antt =====
-- `initialize`: the workflows of the directory, then those of Redis. Neither is validated, and what is
-- raised for one of them is logged.
use ploston_core.Prelude.{
  ℕ, ◌+◌, String, Bool, true, false, not, Option, none, some, List, [], ◌∷◌, ltb, select, ◌==◌,
  if◌then◌else◌,
}
use ploston_core.Errors.{Result, ok, err}
use ploston_core.Validation.{ValidationResult}
use ploston_core.Workflow.{WorkflowDefinition}
use ploston_core.Registrations.{WorkflowRegistry, update_metrics, fire_tools_changed}
use ploston_core.Registrations.Yaml.{register_from_yaml}

abbrev pub counted : Result ValidationResult → ℕ
counted (err raised) = 0
counted (ok result) = 1

abbrev pub or_none : Option (List String) → List String
or_none none = []
or_none (some texts) = texts

-- `if yaml_content`
abbrev pub nonempty : List String → List String
nonempty = select (λ text. not (text == ""))

abbrev pub finish : ℕ → WorkflowRegistry → ℕ × WorkflowRegistry
finish count s =
    let t = update_metrics s in (count, if ltb 0 count then fire_tools_changed t else t)

module _ (parse_workflow_yaml : String → Result WorkflowDefinition) (now : String) where
  -- The texts are loaded one after another; the number of those that were registered.
  unfoldable pub load_all : Bool → List String → WorkflowRegistry → ℕ × WorkflowRegistry
  load_all from_file [] s = (0, s)
  load_all from_file (text ∷ texts) s =
      let (result, t) = register_from_yaml parse_workflow_yaml now text from_file false false s in
      let (count, u) = load_all from_file texts t in (counted result + count, u)

  -- The texts in the order of the directory, `none` where there is no directory, and those that Redis
  -- has at its keys in the order of the scan.
  unfoldable pub initialize :
      Option (List String) → List String → WorkflowRegistry → ℕ × WorkflowRegistry
  initialize files stored s =
      let (count, t) = load_all true (or_none files) s in
      let (more, u) = if s.connected then load_all false (nonempty stored) t else (0, t) in
      finish (count + more) u
