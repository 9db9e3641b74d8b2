-- ===== src/Engine/Execute.antt =====
-- `execute_workflow` of src/ploston_core/engine/engine.py. Telemetry and logging are left out.
use ploston_core.Prelude.{
  ℕ, ◌+◌, String, Bool, true, false, Option, none, some, List, [], ◌∷◌, length, is_some,
  if◌then◌else◌,
}
use ploston_core.Prelude.Assoc.{Assoc, values}
use ploston_core.Errors.{Exc, Result, ok, err}
use ploston_core.Types.{ExecutionStatus, StepStatus}
use ploston_core.Value.{Value}
use ploston_core.Workflow.{WorkflowDefinition}
use ploston_core.Plugins.{Plugin, execute_chain}
use ploston_core.Engine.{StepResult, is_completed, is_failed, is_skipped, ExecutionContext, Backend}
use ploston_core.Engine.Outputs.{validate_inputs, compute_outputs}
use ploston_core.Engine.Run.{Steps, execute_steps, request_received}

pub record ExecutionResult : Type 0 where
  pub execution_id : String
  pub workflow_id : String
  pub workflow_version : String
  pub status : ExecutionStatus
  pub inputs : Assoc Value
  pub outputs : Assoc Value
  pub steps : List StepResult
  pub error : Option Exc
  pub steps_completed : ℕ
  pub steps_failed : ℕ
  pub steps_skipped : ℕ

-- `sum(1 for r in results if r.status == ...)`
unfoldable pub count_status : (StepStatus → Bool) → List StepResult → ℕ
count_status p [] = 0
count_status p (r ∷ rs) = (if p r.status then 1 else 0) + count_status p rs

abbrev pub status_of : Option Exc → ExecutionStatus
status_of none = ExecutionStatus.completed
status_of (some e) = ExecutionStatus.failed

-- The result of a run whose inputs are rejected.
unfoldable pub rejected : String → WorkflowDefinition → Assoc Value → Exc → ExecutionResult
rejected execution_id workflow inputs e = record {
  execution_id = execution_id;
  workflow_id = workflow.name;
  workflow_version = workflow.version;
  status = ExecutionStatus.failed;
  inputs = inputs;
  outputs = [];
  steps = [];
  error = some e;
  steps_completed = 0;
  steps_failed = 0;
  steps_skipped = 0;
}

-- The `ExecutionContext` before the first step.
abbrev pub start_context : String → WorkflowDefinition → Assoc Value → ExecutionContext
start_context execution_id workflow inputs = record {
  execution_id = execution_id;
  workflow = workflow;
  inputs = inputs;
  step_outputs = [];
  step_results = [];
}

module _ {W : Type 0} (b : Backend W) (plugins : Option (List Plugin)) where
  -- The RESPONSE_READY hook: the outputs to return.
  unfoldable pub response_ready : Steps W → Assoc Value → Result (Assoc Value)
  response_ready s outputs = elim plugins [
    | none ↦ ok outputs
    | some ps ↦
        elim (execute_chain (λ p. p.on_response_ready) ps
          (record {
            workflow_id = s.context.workflow.name;
            execution_id = s.context.execution_id;
            inputs = s.context.inputs;
            outputs = outputs;
            success = if is_some s.raised then false else true;
            error = s.raised;
            step_count = length s.context.step_results;
          })) [ Result.err e ↦ err e | Result.ok r ↦ ok r.current.outputs ]
  ]

  abbrev pub result_of : Steps W → Assoc Value → ExecutionResult
  result_of s outputs =
      let results : List StepResult = values s.context.step_results in
      record {
        execution_id = s.context.execution_id;
        workflow_id = s.context.workflow.name;
        workflow_version = s.context.workflow.version;
        status = status_of s.raised;
        inputs = s.context.inputs;
        outputs = outputs;
        steps = results;
        error = s.raised;
        steps_completed = count_status is_completed results;
        steps_failed = count_status is_failed results;
        steps_skipped = count_status is_skipped results;
      }

  unfoldable pub conclude_final : Steps W → Result (Assoc Value) → Result ExecutionResult
  conclude_final s (err e) = err e
  conclude_final s (ok final) = ok (result_of s final)

  unfoldable pub conclude_from : Steps W → Result (Assoc Value) → Result ExecutionResult
  conclude_from s (err e) = err e
  conclude_from s (ok outputs) = conclude_final s (response_ready s outputs)

  -- From the end of the steps to the result. The outputs are computed after a failure too, outside
  -- every `try`.
  unfoldable pub conclude : Steps W → Result ExecutionResult
  conclude s = conclude_from s (compute_outputs b s.context s.context.workflow.outputs [])

  unfoldable pub run_validated :
      String → WorkflowDefinition → Assoc Value × Option Exc → W → Result ExecutionResult × W
  run_validated execution_id workflow (inputs, some e) w =
      (ok (rejected execution_id workflow inputs e), w)
  run_validated execution_id workflow (inputs, none) w =
      let s = execute_steps b plugins (start_context execution_id workflow inputs) w in
      (conclude s, s.world)

  unfoldable pub run_received :
      String → WorkflowDefinition → Result (Assoc Value) → W → Result ExecutionResult × W
  run_received execution_id workflow (err e) w = (err e, w)
  run_received execution_id workflow (ok current) w =
      run_validated execution_id workflow (validate_inputs workflow current) w

  -- `execute_workflow`, which returns a result or raises.
  unfoldable pub execute_workflow :
      String → WorkflowDefinition → Assoc Value → W → Result ExecutionResult × W
  execute_workflow execution_id workflow inputs w =
      run_received execution_id workflow (request_received b plugins execution_id workflow inputs) w
