-- ===== src/Registrations/Accepted.antt =====
-- What `register` does on each of its branches.
use ploston_core.Prelude.{
  ◌≡◌, refl, ap, ◌∙◌, ◌⊎◌, inl, inr, String, Bool, true, false, some, ◌==◌, mem, is_some, arith,
  if◌then◌else◌, Bool-cases,
}
use ploston_core.Prelude.Assoc.{lookup, lookup-insert}
use ploston_core.Errors.{Exc, Result, ok, err}
use ploston_core.Validation.{ValidationResult}
use ploston_core.Workflow.{WorkflowDefinition}
use ploston_core.Tools
use ploston_core.Validator.Checks.{validate}
use ploston_core.Validator.WellFormed.{IsWellFormed}
use ploston_core.Validator.Sound.{validate-IsWellFormed}
use ploston_core.Registrations.{
  WorkflowRegistry, reserved_names, reserved_error, collision_error, invalid_error,
  fire_tools_changed, update_metrics, check_registrable, passed, check_workflow, new_entry, store,
  register, workflow_of, get,
}

-- The name of a workflow is free.
abbrev pub IsFree : String → WorkflowRegistry → Type 0
IsFree name s =
    (mem name reserved_names ≡ false) × (is_some (Tools.get name s.validator.tools) ≡ false)

abbrev pub IsTaken : String → WorkflowRegistry → Type 0
IsTaken name s =
    (mem name reserved_names ≡ true) ⊎ (is_some (Tools.get name s.validator.tools) ≡ true)

-- What a registration with a result means, from one state to the next.
abbrev pub IsRegistered :
    WorkflowDefinition
    → Bool
    → WorkflowRegistry
    → Result ValidationResult × WorkflowRegistry
    → Type 0
IsRegistered w validated s (err raised, t) =
    (t ≡ s) × (IsTaken w.name s ⊎ (validated ≡ true) × (¬ IsWellFormed s.validator true w))
IsRegistered w validated s (ok result, t) =
    IsFree w.name s
    × (validated ≡ true → IsWellFormed s.validator true w)
    × (result.valid ≡ true)
    × ((name : String) → get name t ≡ (if w.name == name then some w else get name s))

pub check_registrable-cases :
    (name : String) (s : WorkflowRegistry)
    → ((check_registrable name s ≡ ok tt) × IsFree name s)
      ⊎ (raised : Exc) × (check_registrable name s ≡ err raised) × IsTaken name s
unfolding check_registrable
check_registrable-cases name s = elim (Bool-cases (mem name reserved_names)) [
  | inl reserved ↦ inr (reserved_error name, simp reserved, inl reserved)
  | inr free ↦ elim (Bool-cases (is_some (Tools.get name s.validator.tools))) [
    | inl tool ↦ inr (collision_error name, simp (free, tool), inr tool)
    | inr fine ↦ inl (simp (free, fine), (free, fine))
  ]
]

check_workflow-cases :
    (validated : Bool) (w : WorkflowDefinition) (s : WorkflowRegistry)
    → ((result : ValidationResult) × (check_workflow validated w s ≡ ok result)
        × (result.valid ≡ true)
        × (validated ≡ true → IsWellFormed s.validator true w))
      ⊎ (raised : Exc) × (check_workflow validated w s ≡ err raised)
        × (validated ≡ true)
        × (¬ IsWellFormed s.validator true w)
unfolding check_workflow
check_workflow-cases false w s = inl (passed, refl, refl, λ h. cc)
check_workflow-cases true w s =
    let exact = validate-IsWellFormed s.validator true w in
    elim (Bool-cases (validate s.validator true w).valid) [
      | inl good ↦ inl (validate s.validator true w, simp good, good, λ h. exact.0 good)
      | inr bad ↦
          inr (
            invalid_error (validate s.validator true w),
            simp bad,
            refl,
            λ wf. cc (bad, exact.1 wf),
          )
    ]

pub fire-workflows :
    (s : WorkflowRegistry) → (fire_tools_changed (update_metrics s)).workflows ≡ s.workflows
unfolding fire_tools_changed update_metrics
fire-workflows s = elim (Bool-cases s.listening) [ inl on ↦ simp on refl | inr off ↦ simp off refl ]

get-stored :
    (now : String) (w : WorkflowDefinition) (s : WorkflowRegistry) (name : String)
    → get name (fire_tools_changed (update_metrics (store now w s)))
      ≡ (if w.name == name then some w else get name s)
unfolding get
get-stored now w s name =
    ap (λ d. workflow_of (lookup name d)) (fire-workflows (store now w s))
    ∙ ground (arith, lookup-insert w.name name (new_entry now w) s.workflows)

-- `register` accepts a workflow exactly if its name is free, which means no reserved name and no name
-- of a tool, and, where it validates, the workflow is well-formed. Then the workflow is found by its
-- name and all others are as before. Otherwise it raises and changes nothing.
pub register-IsRegistered :
    (now : String) (w : WorkflowDefinition) (validated : Bool) (s : WorkflowRegistry)
    → IsRegistered w validated s (register now w validated s)
unfolding register
register-IsRegistered now w validated s = elim (check_registrable-cases w.name s) [
  | inr (raised, refused, taken) ↦ rw (register, refused) (refl, inl taken)
  | inl (accepted, free) ↦ elim (check_workflow-cases validated w s) [
    | inr (raised, refused, on, bad) ↦ rw (register, accepted, refused) (refl, inr (on, bad))
    | inl (result, fine, valid, good) ↦
        rw (register, accepted, fine) (free, good, valid, get-stored now w s)
  ]
]
