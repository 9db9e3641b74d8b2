-- ===== src/Engine/Calls.antt =====
-- The calls of `_execute_step` that `_execute_steps` makes, in their order.
use ploston_core.Prelude.{
  ℕ, ◌+◌, ◌<◌, String, ◌≡◌, refl, ap, inl, inr, false, Option, none, some, List, [], ◌∷◌, or_else,
  Bool-cases,
}
use ploston_core.Prelude.Count.{occurs}
use ploston_core.Errors.{Exc, Result, ok, err, ael}
use ploston_core.Workflow.{StepDefinition, get_step}
use ploston_core.Workflow.Order.{deps_of}
use ploston_core.Plugins.{Plugin}
use ploston_core.Engine.{
  StepResult, is_failed, ExecutionContext, add_step_result, find_failed_dependency, Backend,
}
use ploston_core.Engine.Step.{is_skip}
use ploston_core.Engine.Retry.{execute_step}
use ploston_core.Engine.Run.{Steps, cascade_result, after_step, visit_found, visit_step, steps_loop}
use ploston_core.Engine.Run.Rule.{Rule}
use ploston_core.Engine.Attempts.{IsReturned, config_of, execute_step-IsReturned}
use ploston_core.Engine.Recorded.{IsDone}

-- All dependencies of a step have results, and these are completed.
abbrev pub AreDone : StepDefinition → ExecutionContext → Type 0
AreDone step c = (d : String) → 0 < occurs d (deps_of step) → IsDone d c

-- From a context and an outside to the state at the end, by three kinds of rounds: a step is recorded
-- as skipped, with the outside as it was; a step of the workflow whose dependencies are done is
-- executed, and its result is recorded; such a step is executed, and raises. Nothing else touches the outside.
pub data Runs {W : Type 0} (b : Backend W) (plugins : Option (List Plugin))
    : ExecutionContext → W → Steps W → Type 0 where
  ended :
      {c : ExecutionContext} {w : W} {s : Steps W} (e : Option Exc)
      → s ≡ record { context = c; raised = e; world = w }
      → Runs b plugins c w s
  cascaded :
      {c : ExecutionContext} {w : W} {s : Steps W} (step : StepDefinition)
      (root : String × StepResult)
      → find_failed_dependency step c ≡ some root
      → Runs b plugins (add_step_result b.show (cascade_result step.id root) c) w s
      → Runs b plugins c w s
  executed :
      {c : ExecutionContext} {w : W} {s : Steps W} (k : String) (step : StepDefinition)
      (index total : ℕ) (r : StepResult) (v : W)
      → get_step c.workflow k ≡ some step
      → AreDone step c
      → execute_step b plugins step c index total w ≡ (ok r, v)
      → Runs b plugins (add_step_result b.show r c) v s
      → Runs b plugins c w s
  raised :
      {c : ExecutionContext} {w : W} {s : Steps W} (k : String) (step : StepDefinition)
      (index total : ℕ) (e : Exc) (v : W)
      → get_step c.workflow k ≡ some step
      → AreDone step c
      → execute_step b plugins step c index total w ≡ (err e, v)
      → s ≡ record { context = c; raised = some e; world = v }
      → Runs b plugins c w s

-- An invariant of the loop under which a step without a failed dependency has all of them done.
module _ {W : Type 0} (b : Backend W) (plugins : Option (List Plugin))
    (P : List String → ExecutionContext → Type 0) (Q : ExecutionContext → Option Exc → Type 0)
    (rule : Rule b P Q)
    (ready : (k : String) (ks : List String) (c : ExecutionContext) (s : StepDefinition)
      → P (k ∷ ks) c
      → get_step c.workflow k ≡ some s
      → find_failed_dependency s c ≡ none
      → AreDone s c) where
  module _ (k : String) (ks : List String) (c : ExecutionContext) (p : P (k ∷ ks) c)
      (s : StepDefinition) (got : get_step c.workflow k ≡ some s) (index total : ℕ) (w : W)
      (rest : ExecutionContext → W → Steps W)
      (ih : (c' : ExecutionContext) (v : W) → P ks c' → Runs b plugins c' v (rest c' v)) where
    recorded-Runs :
        (r : StepResult) (v : W)
        → find_failed_dependency s c ≡ none
        → IsReturned s (config_of b s c) r
        → Runs b plugins (add_step_result b.show r c) v (after_step b plugins s c (ok r, v) rest)
    unfolding after_step
    recorded-Runs r v free own = elim (Bool-cases (is_failed r.status)) [
      | inr fine ↦
          rw (after_step, fine)
            (ih (add_step_result b.show r c) v (rule.ran k ks c s r p got free own fine))
      | inl failed ↦ elim (Bool-cases (is_skip (config_of b s c).on_error)) [
        | inl skip ↦
            absurd (let f : is_failed r.status ≡ false = own.not_failed skip in cc (f, failed))
        | inr stop ↦
            rw (after_step, failed, stop)
              (ended (some (or_else r.error (ael "STEP_FAILED" s.id))) refl)
      ]
    ]

    after_step-Runs :
        (o : Result StepResult × W)
        → execute_step b plugins s c index total w ≡ o
        → find_failed_dependency s c ≡ none
        → Runs b plugins c w (after_step b plugins s c o rest)
    unfolding after_step
    after_step-Runs (err e, v) called free =
        raised k s index total e v got (ready k ks c s p got free) called refl
    after_step-Runs (ok r, v) called free =
        executed k s index total r v got (ready k ks c s p got free) called (
          recorded-Runs r v free
            (execute_step-IsReturned b plugins s c index total w r (ap (λ o. o.0) called)))

    visit_found-Runs :
        (root : Option (String × StepResult))
        → find_failed_dependency s c ≡ root
        → Runs b plugins c w (visit_found b plugins s c index total w rest root)
    unfolding visit_found
    visit_found-Runs (some root) e = cascaded s root e (
        ih (add_step_result b.show (cascade_result s.id root) c) w
          (rule.cascade k ks c s root p got))
    visit_found-Runs none e = after_step-Runs (execute_step b plugins s c index total w) refl e

  pub steps_loop-Runs :
      (total index : ℕ) (ks : List String) (c : ExecutionContext) (w : W)
      → P ks c
      → Runs b plugins c w (steps_loop b plugins total ks index c w)
  unfolding steps_loop
  steps_loop-Runs total index [] c w p = ended none refl
  steps_loop-Runs total index (k ∷ ks) c w p =
      let (s, got) = rule.found k ks c p in
      rw (got, visit_step)
        (visit_found-Runs k ks c p s got index total w
          (λ c' v. steps_loop b plugins total ks (index + 1) c' v)
          (λ c' v. steps_loop-Runs total (index + 1) ks c' v) (find_failed_dependency s c) refl)
