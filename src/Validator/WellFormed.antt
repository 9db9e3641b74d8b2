-- ===== src/Validator/WellFormed.antt =====
-- What a well-formed workflow is, and lists of issues that are empty.
use mathlib.Core.Logic.{◌↔◌}
use ploston_core.Prelude.{
  ◌≡◌, refl, String, Bool, true, false, not, none, List, [], ◌∷◌, ◌++◌, ◌==◌, mem, truthy,
}
use ploston_core.Prelude.Assoc.{Assoc}
use ploston_core.Prelude.Count.{Distinct}
use ploston_core.Prelude.Texts.{join, split_at}
use ploston_core.Value.{Value}
use ploston_core.Validation.{ValidationIssue}
use ploston_core.Workflow.{OutputDefinition, StepDefinition, WorkflowDefinition}
use ploston_core.Workflow.Order.{deps_of, order, get_execution_order}
use ploston_core.Validator.{
  template_errors, template_references, Texts, WorkflowValidator, text_of, resolve_tool,
}
use ploston_core.Validator.Checks.{unless, all_of, step_ids, input_names, default_runner}

abbrev pub All {ℓ κ} : {A : Type ℓ} → (A → Type κ) → List A → Type κ
All P [] = Unit
All P (x ∷ xs) = P x × All P xs

pub nil_append : (xs ys : List ValidationIssue) → (xs ++ ys ≡ []) ↔ ((xs ≡ []) × (ys ≡ []))
nil_append [] ys = (λ h. (refl, h), λ h. h.1)
nil_append (x ∷ xs) ys = (λ h. cc, λ h. cc)

pub all_of-nil {ℓ} :
    {A : Type ℓ} (check : A → List ValidationIssue) (P : A → Type 0)
    → ((x : A) → (check x ≡ []) ↔ P x)
    → (xs : List A) → (all_of check xs ≡ []) ↔ All P xs
all_of-nil check P h [] = (λ _. tt, λ _. refl)
all_of-nil check P h (x ∷ xs) =
    let rest = all_of-nil check P h xs in
    let both = nil_append (check x) (all_of check xs) in
    (λ e. ((h x).0 (both.0 e).0, rest.0 (both.0 e).1), λ p. both.1 ((h x).1 p.0, rest.1 p.1))

pub unless-nil : (b : Bool) (i : ValidationIssue) → (unless b i ≡ []) ↔ (b ≡ true)
unless-nil true i = (λ _. refl, λ _. refl)
unless-nil false i = (λ h. cc, λ h. cc)

-- A reference to an input or a step names one that there is.
abbrev pub IsKnownPath : WorkflowDefinition → List String → Type 0
IsKnownPath w (root ∷ name ∷ more) =
    ((root == "inputs") ≡ true → mem name (input_names w) ≡ true)
    × ((root == "steps") ≡ true → mem name (step_ids w) ≡ true)
IsKnownPath w _ = Unit {0}

abbrev pub HasGoodParams : Texts → WorkflowDefinition → Assoc Value → Type 0
HasGoodParams texts w [] = Unit {0}
HasGoodParams texts w (p ∷ ps) =
    (template_errors texts (p ∷ ps) ≡ [])
    × All (λ ref. IsKnownPath w (split_at b'.' ref)) (template_references (p ∷ ps))

abbrev pub condition_of : StepDefinition → Assoc Value
condition_of s = ("_when", Value.str (join "" ("{{ " ∷ text_of s.when ∷ " }}" ∷ []))) ∷ []

pub record IsGoodStep (v : WorkflowValidator) (check_tools : Bool) (w : WorkflowDefinition)
    (s : StepDefinition) : Type 0 where
  -- Exactly one of `tool` and `code`.
  pub one_kind : truthy s.tool ≡ not (truthy s.code)
  pub on_server : truthy s.tool ≡ true → truthy s.mcp ≡ true
  pub found :
      check_tools ≡ true
      → truthy s.tool ≡ true
      → truthy s.mcp ≡ true
      → resolve_tool v s (default_runner w) ≡ none
  pub known : All (λ d. mem d (step_ids w) ≡ true) (deps_of s)
  pub params : HasGoodParams v.texts w s.params
  pub condition : truthy s.when ≡ true → template_errors v.texts (condition_of s) ≡ []

pub record IsWellFormed (v : WorkflowValidator) (check_tools : Bool) (w : WorkflowDefinition)
    : Type 0 where
  pub named : (w.name == "") ≡ false
  pub versioned : (w.version == "") ≡ false
  pub distinct : Distinct (step_ids w)
  pub steps : All (IsGoodStep v check_tools w) w.steps
  pub ordered : (ids : List String) × (get_execution_order w ≡ order ids)
  -- Exactly one of `from_path` and `value`.
  pub outputs : All (λ (o : OutputDefinition). truthy o.from_path ≡ not (truthy o.value)) w.outputs
