-- ===== src/Validator/Steps.antt =====
-- A step has no issue exactly if it is good.
use mathlib.Core.Logic.{◌↔◌}
use ploston_core.Prelude.{
  ◌≡◌, refl, String, Bool, true, false, not, ◌&&◌, ◌||◌, Option, none, some, List, [], ◌∷◌, ◌++◌,
  map, ◌==◌, eq_iff, mem, truthy, arith, if◌then◌else◌, Bool-cases, inl, inr,
}
use ploston_core.Prelude.Assoc.{Assoc}
use ploston_core.Prelude.Texts.{split_at}
use ploston_core.Value.{Value}
use ploston_core.Validation.{ValidationIssue}
use ploston_core.Workflow.{StepDefinition, WorkflowDefinition}
use ploston_core.Workflow.Order.{deps_of}
use ploston_core.Validator.{
  template_errors, template_references, Texts, WorkflowValidator, resolve_tool,
}
use ploston_core.Validator.Checks.{
  all_of, step_ids, input_names, check_kind, check_mcp, default_runner, unresolved, check_tool,
  check_dependency, template_issue, check_parts, check_reference, check_params, when_issue,
  check_when, check_step,
}
use ploston_core.Validator.WellFormed.{
  nil_append, all_of-nil, unless-nil, IsKnownPath, HasGoodParams, condition_of, IsGoodStep,
}

check_kind-nil : (s : StepDefinition) → (check_kind s ≡ []) ↔ (truthy s.tool ≡ not (truthy s.code))
unfolding check_kind
check_kind-nil s = elim (Bool-cases (truthy s.tool)) [
  | inl a ↦ elim (Bool-cases (truthy s.code)) [
    | inl b ↦ simp (a, b) (λ h. cc, λ h. cc)
    | inr b ↦ simp (a, b) (λ h. refl, λ h. refl)
  ]
  | inr a ↦ elim (Bool-cases (truthy s.code)) [
    | inl b ↦ simp (a, b) (λ h. refl, λ h. refl)
    | inr b ↦ simp (a, b) (λ h. cc, λ h. cc)
  ]
]

check_mcp-nil :
    (s : StepDefinition) → (check_mcp s ≡ []) ↔ (truthy s.tool ≡ true → truthy s.mcp ≡ true)
unfolding check_mcp
check_mcp-nil s =
    let (to, from) = unless-nil (not (truthy s.tool) || truthy s.mcp) _ in
    (
      λ h t. ground (arith, to h),
      λ h.
          from (elim (Bool-cases (truthy s.tool)) [ inl a ↦ rw (a, h a) refl | inr a ↦ rw a refl ]),
    )

unresolved-nil : (s : StepDefinition) (r : Option String) → (unresolved s r ≡ []) ↔ (r ≡ none)
unresolved-nil s none = (λ h. refl, λ h. refl)
unresolved-nil s (some m) = (λ h. cc, λ h. cc)

when_nil :
    (b : Bool) (xs : List ValidationIssue) → ((if b then xs else []) ≡ []) ↔ (b ≡ true → xs ≡ [])
when_nil true xs = (λ h _. h, λ h. h refl)
when_nil false xs = (λ h e. cc, λ h. refl)

and_true : (a b : Bool) → ((a && b) ≡ true) ↔ ((a ≡ true) × (b ≡ true))
and_true true b = (λ h. (refl, h), λ h. h.1)
and_true false b = (λ h. cc, λ h. h.0)

check_tool-nil :
    (v : WorkflowValidator) (c : Bool) (w : WorkflowDefinition) (s : StepDefinition)
    → (check_tool v c w s ≡ []) ↔ (
        c ≡ true
        → truthy s.tool ≡ true
        → truthy s.mcp ≡ true
        → resolve_tool v s (default_runner w) ≡ none)
unfolding check_tool
check_tool-nil v c w s =
    let whole =
      when_nil (c && (truthy s.tool && truthy s.mcp))
        (unresolved s (resolve_tool v s (default_runner w))) in
    let r = unresolved-nil s (resolve_tool v s (default_runner w)) in
    let outer = and_true c (truthy s.tool && truthy s.mcp) in
    let inner = and_true (truthy s.tool) (truthy s.mcp) in
    (
      λ h a b d. r.0 (whole.0 h (outer.1 (a, inner.1 (b, d)))),
      λ h. whole.1 (λ e. r.1 (h (outer.0 e).0 (inner.0 (outer.0 e).1).0 (inner.0 (outer.0 e).1).1)),
    )

check_dependency-nil :
    (ids : List String) (s : StepDefinition) (d : String)
    → (check_dependency ids s d ≡ []) ↔ (mem d ids ≡ true)
unfolding check_dependency
check_dependency-nil ids s d = unless-nil (mem d ids) _

map-nil : (f : String → ValidationIssue) (xs : List String) → (map f xs ≡ []) ↔ (xs ≡ [])
map-nil f [] = (λ h. refl, λ h. refl)
map-nil f (x ∷ xs) = (λ h. cc, λ h. cc)

guarded : (x y : Bool) → (x ≡ true → y ≡ true) → (x && not y) ≡ false
guarded true y h = rw (h refl) refl
guarded false y h = refl

check_parts-nil :
    (texts : Texts) (w : WorkflowDefinition) (s : StepDefinition) (parts : List String)
    → (check_parts texts w s parts ≡ []) ↔ IsKnownPath w parts
unfolding check_parts
check_parts-nil texts w s [] = (λ h. tt, λ h. refl)
check_parts-nil texts w s (root ∷ []) = (λ h. tt, λ h. refl)
check_parts-nil texts w s (root ∷ name ∷ more) = (
  λ h. (
    λ a. ground (arith, h, a),
    λ a. ground (arith, h, a, eq_iff root "inputs", eq_iff root "steps"),
  ),
  λ h. known_parts h.0 h.1,
)
  where
    known_parts :
        ((root == "inputs") ≡ true → mem name (input_names w) ≡ true)
        → ((root == "steps") ≡ true → mem name (step_ids w) ≡ true)
        → check_parts texts w s (root ∷ name ∷ more) ≡ []
    known_parts a b = simp (guarded (root == "inputs") _ a, guarded (root == "steps") _ b)

check_params-nil :
    (texts : Texts) (w : WorkflowDefinition) (s : StepDefinition) (params : Assoc Value)
    → (check_params texts w s params ≡ []) ↔ HasGoodParams texts w params
unfolding check_params
check_params-nil texts w s [] = (λ h. tt, λ h. refl)
check_params-nil texts w s (p ∷ ps) =
    let both =
      nil_append (map (template_issue s) (template_errors texts (p ∷ ps)))
        (all_of (check_reference texts w s) (template_references (p ∷ ps))) in
    let syntax = map-nil (template_issue s) (template_errors texts (p ∷ ps)) in
    let known =
      all_of-nil (check_reference texts w s) (λ ref. IsKnownPath w (split_at b'.' ref))
        (λ ref. check_parts-nil texts w s (split_at b'.' ref)) (template_references (p ∷ ps)) in
    (λ h. (syntax.0 (both.0 h).0, known.0 (both.0 h).1), λ h. both.1 (syntax.1 h.0, known.1 h.1))

check_when-nil :
    (texts : Texts) (s : StepDefinition)
    → (check_when texts s ≡ [])
      ↔ (truthy s.when ≡ true → template_errors texts (condition_of s) ≡ [])
unfolding check_when
check_when-nil texts s =
    let whole =
      when_nil (truthy s.when) (map (when_issue s) (template_errors texts (condition_of s))) in
    let syntax = map-nil (when_issue s) (template_errors texts (condition_of s)) in
    (λ h t. syntax.0 (whole.0 h t), λ h. whole.1 (λ t. syntax.1 (h t)))

pub check_step-nil :
    (v : WorkflowValidator) (c : Bool) (w : WorkflowDefinition) (s : StepDefinition)
    → (check_step v c w s ≡ []) ↔ IsGoodStep v c w s
unfolding check_step
check_step-nil v c w s =
    let kind = check_kind-nil s in
    let server = check_mcp-nil s in
    let tool = check_tool-nil v c w s in
    let known =
      all_of-nil (check_dependency (step_ids w) s) (λ d. mem d (step_ids w) ≡ true)
        (λ d. check_dependency-nil (step_ids w) s d) (deps_of s) in
    let params = check_params-nil v.texts w s s.params in
    let condition = check_when-nil v.texts s in
    let last = check_params v.texts w s s.params ++ check_when v.texts s in
    let fourth = all_of (check_dependency (step_ids w) s) (deps_of s) ++ last in
    let third = check_tool v c w s ++ fourth in
    let second = check_mcp s ++ third in
    let a = nil_append (check_kind s) second in
    let b = nil_append (check_mcp s) third in
    let d = nil_append (check_tool v c w s) fourth in
    let e = nil_append (all_of (check_dependency (step_ids w) s) (deps_of s)) last in
    let f = nil_append (check_params v.texts w s s.params) (check_when v.texts s) in
    (
      λ h.
          let h1 = (a.0 h).1 in
          let h2 = (b.0 h1).1 in
          let h3 = (d.0 h2).1 in
          let h4 = (e.0 h3).1 in
          record {
            one_kind = kind.0 (a.0 h).0;
            on_server = server.0 (b.0 h1).0;
            found = tool.0 (d.0 h2).0;
            known = known.0 (e.0 h3).0;
            params = params.0 (f.0 h4).0;
            condition = condition.0 (f.0 h4).1;
          },
      λ g. a.1 (
        kind.1 g.one_kind,
        b.1 (
          server.1 g.on_server,
          d.1 (
            tool.1 g.found,
            e.1 (known.1 g.known, f.1 (params.1 g.params, condition.1 g.condition)),
          ),
        ),
      ),
    )
