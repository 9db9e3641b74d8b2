-- ===== src/Engine/Run.antt =====
-- `_execute_steps` and `execute_workflow` of src/ploston_core/engine/engine.py.
pub mod Rule
use ploston_core.Prelude.{
  ℕ, suc, ◌+◌, String, Bool, true, false, not, ◌&&◌, Option, none, some, List, [], ◌∷◌, length,
  select, or_else, is_some, if◌then◌else◌,
}
use ploston_core.Prelude.Assoc.{Assoc, values}
use ploston_core.Errors.{Exc, Result, ok, err, ael}
use ploston_core.Types.{ExecutionStatus, StepStatus}
use ploston_core.Value.{Value}
use ploston_core.Workflow.{StepDefinition, WorkflowDefinition, get_step}
use ploston_core.Workflow.Order.{Order, order, circular, no_fuel, get_execution_order}
use ploston_core.Plugins.{Plugin, RequestContext, ResponseContext, HookResult, execute_chain}
use ploston_core.Engine.{
  SkipReason, SkippedMetadata, StepResult, step_result, is_completed, is_failed, is_skipped,
  ExecutionContext, add_step_result, get_step_config, find_failed_dependency, Backend,
}
use ploston_core.Engine.Step.{is_skip}
use ploston_core.Engine.Retry.{execute_step}
use ploston_core.Engine.Outputs.{validate_inputs, compute_outputs}

-- The result of a step that is skipped for the dependency `root_id`.
unfoldable pub cascade_result : String → String × StepResult → StepResult
cascade_result step_id (root_id, root) = record (step_result step_id StepStatus.skipped) {
  skip_reason = some (SkipReason.dependency root_id);
  error_metadata = some (record {
    root_cause_step_id = root_id;
    root_cause_error = root.error;
    root_cause_skip = if is_some root.error then none else root.skip_reason;
  });
}

-- The state after the steps and the exception that ended them, if one did.
pub record Steps (W : Type 0) : Type 0 where
  pub context : ExecutionContext
  pub raised : Option Exc
  pub world : W

module _ {W : Type 0} (b : Backend W) (plugins : Option (List Plugin)) where
  -- What follows the execution of a step; `rest` is the rest of the loop.
  unfoldable pub after_step :
      StepDefinition
      → ExecutionContext
      → Result StepResult × W
      → (ExecutionContext → W → Steps W)
      → Steps W
  after_step step context (Result.err e, w) rest = record {
    context = context;
    raised = some e;
    world = w;
  }
  after_step step context (Result.ok result, w) rest =
      let context' = add_step_result b.show result context in
      let config = get_step_config b.default_timeout step context.workflow in
      if is_failed result.status && not (is_skip config.on_error)
      then record {
        context = context';
        raised = some (or_else result.error (ael "STEP_FAILED" step.id));
        world = w;
      }
      else rest context' w

  -- A step that was found, with the dependency that failed or was skipped, if one did.
  unfoldable pub visit_found :
      StepDefinition
      → ExecutionContext
      → ℕ
      → ℕ
      → W
      → (ExecutionContext → W → Steps W)
      → Option (String × StepResult)
      → Steps W
  visit_found step context index total w rest (some root) =
      rest (add_step_result b.show (cascade_result step.id root) context) w
  visit_found step context index total w rest none =
      after_step step context (execute_step b plugins step context index total w) rest

  -- One round of the loop of `_execute_steps`.
  abbrev pub visit_step :
      Option StepDefinition
      → ExecutionContext
      → ℕ
      → ℕ
      → W
      → (ExecutionContext → W → Steps W)
      → Steps W
  visit_step none context index total w rest = rest context w
  visit_step (some step) context index total w rest =
      visit_found step context index total w rest (find_failed_dependency step context)

  unfoldable pub steps_loop : ℕ → List String → ℕ → ExecutionContext → W → Steps W
  steps_loop total [] index context w = record { context = context; raised = none; world = w }
  steps_loop total (step_id ∷ ids) index context w =
      visit_step (get_step context.workflow step_id) context index total w
        (λ c v. steps_loop total ids (index + 1) c v)

  unfoldable pub run_order : Order → ExecutionContext → W → Steps W
  run_order (order ids) context w = steps_loop (length ids) ids 0 context w
  run_order circular context w = record {
    context = context;
    raised = some Exc.value_error;
    world = w;
  }
  run_order no_fuel context w = record {
    context = context;
    raised = some (Exc.other "no_fuel");
    world = w;
  }

  unfoldable pub execute_steps : ExecutionContext → W → Steps W
  execute_steps context w = run_order (get_execution_order context.workflow) context w

  -- The REQUEST_RECEIVED hook: the inputs to use.
  unfoldable pub request_received : String → WorkflowDefinition → Assoc Value → Result (Assoc Value)
  request_received execution_id workflow inputs = elim plugins [
    | none ↦ ok inputs
    | some ps ↦
        elim (execute_chain (λ p. p.on_request_received) ps
          (record { workflow_id = workflow.name; inputs = inputs; execution_id = execution_id })) [
            | Result.err e ↦ err e
            | Result.ok r ↦ ok r.current.inputs
          ]
  ]
