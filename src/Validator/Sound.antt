-- ===== src/Validator/Sound.antt =====
-- A workflow without errors is well-formed, and a well-formed one has no errors.
use mathlib.Core.Logic.{◌↔◌, ◌≢◌}
use ploston_core.Prelude.{
  ◌≡◌, refl, ap, String, Bool, true, false, not, List, [], ◌∷◌, ◌++◌, ◌==◌, eq_iff, ltb, select,
  truthy, arith, if◌then◌else◌, Bool-cases, inl, inr,
}
use ploston_core.Prelude.Count.{occurs, Distinct}
use ploston_core.Validation.{ValidationIssue, post_init}
use ploston_core.Workflow.{OutputDefinition, WorkflowDefinition}
use ploston_core.Workflow.Order.{Order, order, circular, no_fuel, get_execution_order}
use ploston_core.Workflow.Order.Termination.{get_execution_order_ends}
use ploston_core.Validator.{Texts, WorkflowValidator, issue}
use ploston_core.Validator.Checks.{
  all_of, step_ids, check_name, check_version, has_none, duplicates, check_unique, check_step,
  check_order, check_output, errors_of, no_issue, validate,
}
use ploston_core.Validator.WellFormed.{nil_append, all_of-nil, unless-nil, IsGoodStep, IsWellFormed}
use ploston_core.Validator.Steps.{check_step-nil}

occurs-select :
    (p : String → Bool) (k : String) (xs : List String)
    → occurs k (select p xs) ≡ (if p k then occurs k xs else 0)
unfolding occurs select
occurs-select p k [] = ground arith
occurs-select p k (x ∷ xs) = ground (arith, occurs-select p k xs, eq_iff x k)

select_none :
    (p : String → Bool) (xs : List String) → ((x : String) → p x ≡ false) → select p xs ≡ []
unfolding select
select_none p [] h = refl
select_none p (x ∷ xs) h = rw (h x) (select_none p xs h)

has_none-nil : (xs : List String) → (has_none xs ≡ true) ↔ (xs ≡ [])
has_none-nil [] = (λ h. refl, λ h. refl)
has_none-nil (x ∷ xs) = (λ h. cc, λ h. cc)

duplicates-nil : (ids : List String) → (duplicates ids ≡ []) ↔ Distinct ids
unfolding duplicates
duplicates-nil ids = (
  λ h k.
      ground (arith, occurs-select (λ j. ltb 1 (occurs j ids)) k ids, ap (occurs k) h, no_occurs k),
  λ distinct. select_none (λ j. ltb 1 (occurs j ids)) ids (λ j. ground (arith, distinct j)),
)
  where
    no_occurs : (k : String) → occurs k [] ≡ 0
    no_occurs k = unfold occurs in refl

check_unique-nil :
    (texts : Texts) (w : WorkflowDefinition) → (check_unique texts w ≡ []) ↔ Distinct (step_ids w)
unfolding check_unique
check_unique-nil texts w =
    let outer = unless-nil (has_none (duplicates (step_ids w))) _ in
    let middle = has_none-nil (duplicates (step_ids w)) in
    let inner = duplicates-nil (step_ids w) in
    (λ h. inner.0 (middle.0 (outer.0 h)), λ d. outer.1 (middle.1 (inner.1 d)))

check_order-nil :
    (o : Order) → o ≢ no_fuel → (check_order o ≡ []) ↔ ((ids : List String) × (o ≡ order ids))
unfolding check_order
check_order-nil (order r) n = (λ h. (r, refl), λ h. refl)
check_order-nil circular n = (λ h. cc, λ h. cc h.1)
check_order-nil no_fuel n = absurd (n refl)

check_output-nil :
    (o : OutputDefinition) → (check_output o ≡ []) ↔ (truthy o.from_path ≡ not (truthy o.value))
unfolding check_output
check_output-nil o = elim (Bool-cases (truthy o.from_path)) [
  | inl a ↦ elim (Bool-cases (truthy o.value)) [
    | inl b ↦ simp (a, b) (λ h. cc, λ h. cc)
    | inr b ↦ simp (a, b) (λ h. refl, λ h. refl)
  ]
  | inr a ↦ elim (Bool-cases (truthy o.value)) [
    | inl b ↦ simp (a, b) (λ h. refl, λ h. refl)
    | inr b ↦ simp (a, b) (λ h. cc, λ h. cc)
  ]
]

not-true : (b : Bool) → (not b ≡ true) ↔ (b ≡ false)
not-true true = (λ h. cc, λ h. cc)
not-true false = (λ h. refl, λ h. refl)

errors_of-nil :
    (v : WorkflowValidator) (c : Bool) (w : WorkflowDefinition)
    → (errors_of v c w ≡ []) ↔ IsWellFormed v c w
unfolding errors_of check_name check_version
errors_of-nil v c w =
    let name = unless-nil (not (w.name == "")) (issue ("name" ∷ []) "Workflow name is required") in
    let version =
      unless-nil (not (w.version == "")) (issue ("version" ∷ []) "Workflow version is required") in
    let named = not-true (w.name == "") in
    let versioned = not-true (w.version == "") in
    let unique = check_unique-nil v.texts w in
    let steps = all_of-nil (check_step v c w) (IsGoodStep v c w) (check_step-nil v c w) w.steps in
    let ordered = check_order-nil (get_execution_order w) (get_execution_order_ends w) in
    let outputs =
      all_of-nil check_output (λ (o : OutputDefinition). truthy o.from_path ≡ not (truthy o.value))
        check_output-nil w.outputs in
    let fourth = check_order (get_execution_order w) ++ all_of check_output w.outputs in
    let third = all_of (check_step v c w) w.steps ++ fourth in
    let second = check_unique v.texts w ++ third in
    let a = nil_append (check_name w) (check_version w ++ second) in
    let b = nil_append (check_version w) second in
    let d = nil_append (check_unique v.texts w) third in
    let e = nil_append (all_of (check_step v c w) w.steps) fourth in
    let f = nil_append (check_order (get_execution_order w)) (all_of check_output w.outputs) in
    (
      λ h.
          let h1 = (a.0 h).1 in
          let h2 = (b.0 h1).1 in
          let h3 = (d.0 h2).1 in
          let h4 = (e.0 h3).1 in
          record {
            named = named.0 (name.0 (a.0 h).0);
            versioned = versioned.0 (version.0 (b.0 h1).0);
            distinct = unique.0 (d.0 h2).0;
            steps = steps.0 (e.0 h3).0;
            ordered = ordered.0 (f.0 h4).0;
            outputs = outputs.0 (f.0 h4).1;
          },
      λ g. a.1 (
        name.1 (named.1 g.named),
        b.1 (
          version.1 (versioned.1 g.versioned),
          d.1 (
            unique.1 g.distinct,
            e.1 (steps.1 g.steps, f.1 (ordered.1 g.ordered, outputs.1 g.outputs)),
          ),
        ),
      ),
    )

valid_iff :
    (es : List ValidationIssue)
    → ((post_init (record { valid = no_issue es; errors = es; warnings = [] })).valid ≡ true)
      ↔ (es ≡ [])
unfolding post_init
valid_iff [] = (λ h. refl, λ h. refl)
valid_iff (e ∷ es) = (λ h. cc, λ h. cc)

-- A workflow passes the validation exactly if it has a name and a version, its step ids are distinct,
-- each step has exactly one of a tool and code, a tool step names a server where, if tools are
-- checked, its tool is found, all dependencies and template references name steps and inputs that
-- there are, templates and conditions have no syntax errors, each output has exactly one source, and
-- there is an execution order.
pub validate-IsWellFormed :
    (v : WorkflowValidator) (check_tools : Bool) (w : WorkflowDefinition)
    → ((validate v check_tools w).valid ≡ true) ↔ IsWellFormed v check_tools w
unfolding validate
validate-IsWellFormed v c w =
    let outer = valid_iff (errors_of v c w) in
    let inner = errors_of-nil v c w in (λ h. inner.0 (outer.0 h), λ g. outer.1 (inner.1 g))
