-- ===== src/Tests/Engines.antt =====
-- Runs of the engine on the sample backend.
use ploston_core.Prelude.{String, ◌≡◌, refl, ap, none, some, [], ◌∷◌, mem, select, truthy}
use ploston_core.Prelude.Assoc.{insert, lookup}
use ploston_core.Prelude.Int.{is_zero, pred_ℤ}
use ploston_core.Errors.{Exc, ok, err, ael}
use ploston_core.Types.{exponential, StepStatus, ExecutionStatus}
use ploston_core.Value.{Value, list_of_texts}
use ploston_core.Workflow.{StepDefinition, get_step, step_type}
use ploston_core.Workflow.Order.{graph, get_execution_order}
use ploston_core.Plugins.{execute_chain}
use ploston_core.Value.{dict_of}
use ploston_core.Template.Render.{apply_filters, evaluate_expression, render_string, render_value}
use ploston_core.Template.Render as TemplateEngine
use ploston_core.Engine.Resolve.{get_effective_runner, resolve_invoke_name}
use ploston_core.Engine.Normalize.{parse_text, normalize_mcp_response}
use ploston_core.Engine.Rendering.{render_params}
use ploston_core.Engine.{
  StepResult, step_result, ExecutionContext, find_failed_dependency, get_step_config,
  add_step_result, find_failed, is_completed, is_failed, is_skipped, status_text, to_step_output,
}
use ploston_core.Engine.Step.{
  step_before, when_holds, skips_missing, execute_step_once, run_step, after_success, dispatch_step,
  execute_tool_step, step_after, try_step, handle_failure, is_tool_unavailable,
  calculate_retry_delay,
}
use ploston_core.Engine.Retry.{execute_step, retry_loop, after_once, after_attempt}
use ploston_core.Engine.Outputs.{validate_inputs, check_inputs, compute_outputs}
use ploston_core.Engine.Run.{
  execute_steps, run_order, steps_loop, visit_found, after_step, request_received,
}
use ploston_core.Engine.Execute.{
  ExecutionResult, execute_workflow, run_received, run_validated, conclude, conclude_from,
  conclude_final, response_ready, count_status,
}
use ploston_core.Engine.Attempts.{IsReturned, config_of, execute_step-IsReturned}
use ploston_core.Engine.Hooks.{execute_step_once_type_error}
use ploston_core.Engine.Recorded.{IsSafe}
use ploston_core.Engine.Calls.{Runs}
use ploston_core.Engine.Safety.{execute_steps-IsSafe}
use ploston_core.Engine.Totals.{IsComplete, execute_workflow_completed}
use ploston_core.Tests.Samples.{tool_step, workflow_of, chain, backend, context_of}
use ploston_core.Tests.Orders.{chain-Distinct}

execute_steps-IsSafe_example :
    IsSafe (graph chain.steps) (execute_steps backend none (context_of chain) 0).context
    × Runs backend none (context_of chain) 0 (execute_steps backend none (context_of chain) 0)
execute_steps-IsSafe_example =
    execute_steps-IsSafe backend none (context_of chain) 0 chain-Distinct refl

abbrev finished_step : String → StepResult
finished_step id = record (step_result id StepStatus.completed) { output = Value.str "done" }

abbrev finished : ExecutionResult
finished = record {
  execution_id = "exec-1";
  workflow_id = "sample";
  workflow_version = "1";
  status = ExecutionStatus.completed;
  inputs = [];
  outputs = [];
  steps = finished_step "a" ∷ finished_step "b" ∷ finished_step "c" ∷ [];
  error = none;
  steps_completed = 3;
  steps_failed = 0;
  steps_skipped = 0;
}

chain_run : execute_workflow backend none "exec-1" chain [] 0 ≡ (ok finished, 3)
unfolding execute_workflow run_received run_validated validate_inputs check_inputs request_received
    execute_steps run_order get_execution_order select mem is_zero pred_ℤ steps_loop get_step
    visit_found find_failed_dependency after_step execute_step retry_loop get_step_config after_once
    execute_step_once run_step after_attempt after_success dispatch_step execute_tool_step
    step_after step_before try_step when_holds add_step_result find_failed is_completed is_failed
    is_skipped status_text to_step_output insert lookup truthy list_of_texts step_type conclude
    conclude_from conclude_final response_ready compute_outputs count_status render_params
    TemplateEngine.render_params TemplateEngine.render render_value dict_of normalize_mcp_response
    parse_text resolve_invoke_name get_effective_runner
chain_run = refl

execute_workflow_completed_example : IsComplete chain finished
execute_workflow_completed_example =
    execute_workflow_completed backend none "exec-1" chain [] 0 finished chain-Distinct
      (ap (λ o. o.0) chain_run) refl

-- The tool fails at every attempt.
abbrev broken : StepDefinition
broken = record (tool_step "bad" "broken" none) {
  retry = some (record { max_attempts = 3; backoff = exponential; delay_seconds = 2 });
}

abbrev broken_context : ExecutionContext
broken_context = context_of (workflow_of (broken ∷ []))

abbrev broken_result : StepResult
broken_result = record (step_result "bad" StepStatus.failed) {
  error = some (ael "TOOL_FAILED" "broken");
  attempt = 3;
  max_attempts = 3;
}

-- Three calls, and delays of 2 and 4 seconds.
broken_run : execute_step backend none broken broken_context 0 1 0 ≡ (ok broken_result, 9)
unfolding execute_step retry_loop get_step_config after_once execute_step_once run_step
    after_attempt after_success dispatch_step execute_tool_step step_after step_before try_step
    when_holds is_completed truthy step_type handle_failure is_tool_unavailable skips_missing
    calculate_retry_delay render_params TemplateEngine.render_params TemplateEngine.render
    render_value dict_of resolve_invoke_name get_effective_runner
broken_run = refl

execute_step-IsReturned_example :
    IsReturned broken (config_of backend broken broken_context) broken_result
execute_step-IsReturned_example =
    execute_step-IsReturned backend none broken broken_context 0 1 0 broken_result
      (ap (λ o. o.0) broken_run)

execute_step_once_type_error_example :
    (execute_step_once backend (some []) broken broken_context 0 1 0).0 ≡ err Exc.type_error
unfolding execute_chain truthy skips_missing
execute_step_once_type_error_example =
    execute_step_once_type_error backend [] broken broken_context 0 1 [] 0
      (unfold step_before in refl) (unfold when_holds in refl) refl
