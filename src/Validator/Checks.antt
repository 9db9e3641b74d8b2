-- ===== src/Validator/Checks.antt =====
-- The checks of `validate`, in their order, each with the issues that it adds.
use ploston_core.Prelude.{
  String, Bool, true, false, not, ◌&&◌, ◌||◌, Option, none, some, List, [], ◌∷◌, ◌++◌, map, ◌==◌,
  ltb, mem, select, truthy, if◌then◌else◌,
}
use ploston_core.Prelude.Assoc.{Assoc}
use ploston_core.Prelude.Count.{occurs}
use ploston_core.Prelude.Texts.{join, split_at}
use ploston_core.Value.{Value}
use ploston_core.Validation.{ValidationIssue, ValidationResult, post_init}
use ploston_core.Workflow.{OutputDefinition, StepDefinition, WorkflowDefinition}
use ploston_core.Workflow.Order.{deps_of, Order, order, circular, no_fuel, get_execution_order}
use ploston_core.Validator.{
  template_errors, template_references, Texts, WorkflowValidator, issue, text_of, resolve_tool,
}

-- One issue where a test fails.
abbrev pub unless : Bool → ValidationIssue → List ValidationIssue
unless true i = []
unless false i = i ∷ []

abbrev pub all_of {ℓ} : {A : Type ℓ} → (A → List ValidationIssue) → List A → List ValidationIssue
all_of check [] = []
all_of check (x ∷ xs) = check x ++ all_of check xs

abbrev pub step_ids : WorkflowDefinition → List String
step_ids w = map (λ s. s.id) w.steps

abbrev pub input_names : WorkflowDefinition → List String
input_names w = map (λ i. i.name) w.inputs

abbrev pub step_path : StepDefinition → List String → List String
step_path s more = "steps" ∷ s.id ∷ more

unfoldable pub check_name : WorkflowDefinition → List ValidationIssue
check_name w = unless (not (w.name == "")) (issue ("name" ∷ []) "Workflow name is required")

unfoldable pub check_version : WorkflowDefinition → List ValidationIssue
check_version w =
    unless (not (w.version == "")) (issue ("version" ∷ []) "Workflow version is required")

abbrev pub has_none : List String → Bool
has_none [] = true
has_none (x ∷ xs) = false

-- `[sid for sid in step_ids if step_ids.count(sid) > 1]`
unfoldable pub duplicates : List String → List String
duplicates ids = select (λ k. ltb 1 (occurs k ids)) ids

unfoldable pub check_unique : Texts → WorkflowDefinition → List ValidationIssue
check_unique texts w =
    let repeated = duplicates (step_ids w) in
    unless (has_none repeated)
      (issue ("steps" ∷ []) (join "" ("Duplicate step IDs: " ∷ texts.joined_set repeated ∷ [])))

unfoldable pub check_kind : StepDefinition → List ValidationIssue
check_kind s =
    if truthy s.tool && truthy s.code
    then issue (step_path s []) "Step must have either 'tool' or 'code', not both" ∷ []
    else unless (truthy s.tool || truthy s.code)
        (issue (step_path s []) "Step must have either 'tool' or 'code'")

unfoldable pub check_mcp : StepDefinition → List ValidationIssue
check_mcp s = unless (not (truthy s.tool) || truthy s.mcp) (
    issue (step_path s ("mcp" ∷ [])) (
      join "" (
        "Tool step '" ∷ s.id
        ∷ "' is missing the 'mcp' field. The 'mcp' field is required for tool steps — it identifies which MCP server hosts the tool."
        ∷ [])))

abbrev pub default_runner : WorkflowDefinition → Option String
default_runner w = elim w.defaults [ none ↦ none | some d ↦ d.runner ]

abbrev pub unresolved : StepDefinition → Option String → List ValidationIssue
unresolved s none = []
unresolved s (some message) = issue (step_path s ("tool" ∷ [])) message ∷ []

unfoldable pub check_tool :
    WorkflowValidator → Bool → WorkflowDefinition → StepDefinition → List ValidationIssue
check_tool v check_tools w s =
    if check_tools && (truthy s.tool && truthy s.mcp)
    then unresolved s (resolve_tool v s (default_runner w))
    else []

unfoldable pub check_dependency : List String → StepDefinition → String → List ValidationIssue
check_dependency ids s dep =
    unless (mem dep ids) (
      issue (step_path s ("depends_on" ∷ [])) (join "" ("Dependency '" ∷ dep ∷ "' not found" ∷ [])))

abbrev pub template_issue : StepDefinition → String → ValidationIssue
template_issue s error =
    issue (step_path s ("params" ∷ [])) (join "" ("Template error: " ∷ error ∷ []))

unfoldable pub check_parts :
    Texts → WorkflowDefinition → StepDefinition → List String → List ValidationIssue
check_parts texts w s (root ∷ name ∷ more) =
    if root == "inputs" && not (mem name (input_names w))
    then template_issue s (
        join "" (
          "unknown input '"
          ∷ name
          ∷ "'. Available inputs: "
          ∷ texts.sorted_list (input_names w)
          ∷ "."
          ∷ []))
      ∷ []
    else if root == "steps" && not (mem name (step_ids w))
    then template_issue s (
        join "" (
          "unknown step '"
          ∷ name
          ∷ "'. Available steps: "
          ∷ texts.sorted_list (step_ids w)
          ∷ "."
          ∷ []))
      ∷ []
    else []
check_parts texts w s _ = []

-- The first two parts of a reference are looked at, so the rest may be split further.
abbrev pub check_reference :
    Texts → WorkflowDefinition → StepDefinition → String → List ValidationIssue
check_reference texts w s ref = check_parts texts w s (split_at b'.' ref)

-- Without parameters there is no template.
unfoldable pub check_params :
    Texts → WorkflowDefinition → StepDefinition → Assoc Value → List ValidationIssue
check_params texts w s [] = []
check_params texts w s (p ∷ ps) =
    map (template_issue s) (template_errors texts (p ∷ ps))
    ++ all_of (check_reference texts w s) (template_references (p ∷ ps))

abbrev pub when_issue : StepDefinition → String → ValidationIssue
when_issue s error =
    issue (step_path s ("when" ∷ [])) (join "" ("Template error in when expression: " ∷ error ∷ []))

unfoldable pub check_when : Texts → StepDefinition → List ValidationIssue
check_when texts s =
    if truthy s.when
    then map (when_issue s) (
        template_errors texts
          (("_when", Value.str (join "" ("{{ " ∷ text_of s.when ∷ " }}" ∷ []))) ∷ []))
    else []

unfoldable pub check_step :
    WorkflowValidator → Bool → WorkflowDefinition → StepDefinition → List ValidationIssue
check_step v check_tools w s =
    check_kind s
    ++ (check_mcp s
        ++ (check_tool v check_tools w s
            ++ (all_of (check_dependency (step_ids w) s) (deps_of s)
                ++ (check_params v.texts w s s.params ++ check_when v.texts s))))

unfoldable pub check_order : Order → List ValidationIssue
check_order (order ids) = []
check_order circular = issue ("steps" ∷ []) "Circular dependency detected in workflow" ∷ []
check_order no_fuel = []

unfoldable pub check_output : OutputDefinition → List ValidationIssue
check_output o =
    if truthy o.from_path && truthy o.value
    then issue ("outputs" ∷ o.name ∷ []) "Output must have either 'from_path' or 'value', not both"
      ∷ []
    else unless (truthy o.from_path || truthy o.value)
        (issue ("outputs" ∷ o.name ∷ []) "Output must have either 'from_path' or 'value'")

unfoldable pub errors_of : WorkflowValidator → Bool → WorkflowDefinition → List ValidationIssue
errors_of v check_tools w =
    check_name w
    ++ (check_version w
        ++ (check_unique v.texts w
            ++ (all_of (check_step v check_tools w) w.steps
                ++ (check_order (get_execution_order w) ++ all_of check_output w.outputs))))

abbrev pub no_issue : List ValidationIssue → Bool
no_issue [] = true
no_issue (i ∷ is) = false

unfoldable pub validate : WorkflowValidator → Bool → WorkflowDefinition → ValidationResult
validate v check_tools w =
    let errors = errors_of v check_tools w in
    post_init (record { valid = no_issue errors; errors = errors; warnings = [] })
