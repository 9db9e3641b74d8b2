-- ===== src/Engine/Run/Rule.antt =====
-- A proof rule for the loop of `_execute_steps`.
use ploston_core.Prelude.{
  ℕ, ◌+◌, String, ◌≡◌, refl, inl, inr, true, false, Option, none, some, List, [], ◌∷◌, or_else,
  Bool-cases,
}
use ploston_core.Errors.{Exc, Result, ok, err, ael}
use ploston_core.Workflow.{StepDefinition, get_step}
use ploston_core.Plugins.{Plugin}
use ploston_core.Engine.{
  StepResult, is_failed, ExecutionContext, add_step_result, find_failed_dependency, Backend,
}
use ploston_core.Engine.Step.{is_skip}
use ploston_core.Engine.Retry.{execute_step}
use ploston_core.Engine.Run.{Steps, cascade_result, after_step, visit_found, visit_step, steps_loop}
use ploston_core.Engine.Attempts.{IsReturned, config_of, execute_step-IsReturned}

-- `P ids c` is kept before the steps of `ids`; `Q` is shown of the state in which the loop ends.
pub record Rule {W : Type 0} (b : Backend W) (P : List String → ExecutionContext → Type 0)
    (Q : ExecutionContext → Option Exc → Type 0) : Type 0 where
  pub finish : (c : ExecutionContext) → P [] c → Q c none
  pub found :
      (k : String) (ks : List String) (c : ExecutionContext)
      → P (k ∷ ks) c
      → (s : StepDefinition) × (get_step c.workflow k ≡ some s)
  pub cascade :
      (k : String) (ks : List String) (c : ExecutionContext) (s : StepDefinition)
      (root : String × StepResult)
      → P (k ∷ ks) c
      → get_step c.workflow k ≡ some s
      → P ks (add_step_result b.show (cascade_result s.id root) c)
  pub ran :
      (k : String) (ks : List String) (c : ExecutionContext) (s : StepDefinition) (r : StepResult)
      → P (k ∷ ks) c
      → get_step c.workflow k ≡ some s
      → find_failed_dependency s c ≡ none
      → IsReturned s (config_of b s c) r
      → is_failed r.status ≡ false
      → P ks (add_step_result b.show r c)
  pub stopped :
      (k : String) (ks : List String) (c : ExecutionContext) (s : StepDefinition) (r : StepResult)
      (e : Exc)
      → P (k ∷ ks) c
      → get_step c.workflow k ≡ some s
      → find_failed_dependency s c ≡ none
      → IsReturned s (config_of b s c) r
      → is_failed r.status ≡ true
      → Q (add_step_result b.show r c) (some e)
  pub raised :
      (k : String) (ks : List String) (c : ExecutionContext) (e : Exc) → P (k ∷ ks) c → Q c (some e)

module _ {W : Type 0} (b : Backend W) (plugins : Option (List Plugin))
    (P : List String → ExecutionContext → Type 0) (Q : ExecutionContext → Option Exc → Type 0)
    (rule : Rule b P Q) where
  abbrev Ends : Steps W → Type 0
  Ends s = Q s.context s.raised

  module _ (k : String) (ks : List String) (c : ExecutionContext) (p : P (k ∷ ks) c)
      (s : StepDefinition) (got : get_step c.workflow k ≡ some s)
      (rest : ExecutionContext → W → Steps W)
      (ih : (c' : ExecutionContext) (w : W) → P ks c' → Ends (rest c' w)) where
    after_step-Ends :
        (o : Result StepResult × W)
        → find_failed_dependency s c ≡ none
        → ((r : StepResult) → o.0 ≡ ok r → IsReturned s (config_of b s c) r)
        → Ends (after_step b plugins s c o rest)
    unfolding after_step
    after_step-Ends (err e, w) free returned = rule.raised k ks c e p
    after_step-Ends (ok r, w) free returned = elim (Bool-cases (is_failed r.status)) [
      | inr fine ↦ rw fine (
          ih (add_step_result b.show r c) w (rule.ran k ks c s r p got free (returned r refl) fine))
      | inl failed ↦ elim (Bool-cases (is_skip (config_of b s c).on_error)) [
        | inl skip ↦ cc ((returned r refl).not_failed skip)
        | inr stop ↦
            rw (failed, stop)
              (rule.stopped k ks c s r (or_else r.error (ael "STEP_FAILED" s.id)) p got free
                (returned r refl) failed)
      ]
    ]

    visit_found-Ends :
        (index total : ℕ) (w : W) (root : Option (String × StepResult))
        → find_failed_dependency s c ≡ root
        → Ends (visit_found b plugins s c index total w rest root)
    unfolding visit_found
    visit_found-Ends index total w (some root) e =
        ih (add_step_result b.show (cascade_result s.id root) c) w
          (rule.cascade k ks c s root p got)
    visit_found-Ends index total w none e =
        after_step-Ends (execute_step b plugins s c index total w) e
          (λ r. execute_step-IsReturned b plugins s c index total w r)

  pub steps_loop-Ends :
      (total index : ℕ) (ks : List String) (c : ExecutionContext) (w : W)
      → P ks c
      → Ends (steps_loop b plugins total ks index c w)
  unfolding steps_loop
  steps_loop-Ends total index [] c w p = rule.finish c p
  steps_loop-Ends total index (k ∷ ks) c w p =
      let (s, got) = rule.found k ks c p in
      rw (got, visit_step)
        (visit_found-Ends k ks c p s got (λ c' v. steps_loop b plugins total ks (index + 1) c' v)
          (λ c' v. steps_loop-Ends total (index + 1) ks c' v) index total w
          (find_failed_dependency s c) refl)
