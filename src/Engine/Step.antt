-- ===== src/Engine/Step.antt =====
-- `_execute_step` and `_execute_step_once` of src/ploston_core/engine/engine.py.
use ploston_core.Prelude.{
  ℕ, ◌*◌, ◌-◌, ◌^◌, String, Bool, true, false, ◌&&◌, Option, none, some, List, [], ◌==◌, truthy,
  or_else, if◌then◌else◌,
}
use ploston_core.Prelude.Assoc.{Assoc}
use ploston_core.Errors.{Exc, Result, ok, err, ael, ◌>>=◌}
use ploston_core.Types.{
  OnError, OnMissingTool, StepType, StepStatus, RetryConfig, fixed, exponential,
}
use ploston_core.Value.{Value, is_truthy}
use ploston_core.Workflow.{StepDefinition, step_type}
use ploston_core.Plugins.{Plugin, execute_chain, step_result_context}
use ploston_core.Engine.Resolve.{resolve_invoke_name}
use ploston_core.Engine.Normalize.{normalize_mcp_response}
use ploston_core.Engine.Rendering.{render_params, render_when}
use ploston_core.Engine.{
  SkipReason, StepResult, step_result, ExecutionContext, get_step_config, ToolCallResult, Backend,
}

-- `calculate_retry_delay`
unfoldable pub calculate_retry_delay : ℕ → RetryConfig → ℕ
calculate_retry_delay attempt config = elim config.backoff [
  | fixed ↦ config.delay_seconds
  | exponential ↦ config.delay_seconds * 2 ^ (attempt - 1)
]

abbrev pub is_tool : StepType → Bool
is_tool StepType.tool = true
is_tool StepType.code = false

abbrev pub is_skip : OnError → Bool
is_skip OnError.skip = true
is_skip _ = false

unfoldable pub skips_missing : Option OnMissingTool → Bool
skips_missing (some OnMissingTool.skip) = true
skips_missing _ = false

-- `isinstance(e, AELError) and e.code == "TOOL_UNAVAILABLE"`
unfoldable pub is_tool_unavailable : Exc → Bool
is_tool_unavailable (ael c detail) = c == "TOOL_UNAVAILABLE"
is_tool_unavailable _ = false

-- What is raised for a call that did not succeed.
abbrev pub call_output : Exc → (Value → Value) → ToolCallResult → Result Value
call_output otherwise normalize r =
    if r.success then ok (normalize r.output) else err (or_else r.error otherwise)

module _ {W : Type 0} (b : Backend W) (plugins : Option (List Plugin)) where
  -- `_execute_tool_step`
  unfoldable pub execute_tool_step :
      StepDefinition → ExecutionContext → Assoc Value → W → Result Value × W
  execute_tool_step step context params w = elim (render_params b params context) [
    | Result.err e ↦ (err e, w)
    | Result.ok rendered ↦
        let (r, w') =
          b.invoke (resolve_invoke_name b step context.workflow w) rendered
            (get_step_config b.default_timeout step context.workflow).timeout_seconds w in
        (r >>= call_output (ael "TOOL_FAILED" "") (normalize_mcp_response b.loads), w')
  ]

  -- `_execute_code_step`
  unfoldable pub execute_code_step :
      StepDefinition → ExecutionContext → W → Result (Value × List String) × W
  execute_code_step step context w =
      let (r, w') =
        b.run_code step.code context
          (get_step_config b.default_timeout step context.workflow).timeout_seconds w in
      (r.0 >>= call_output (ael "CODE_RUNTIME" "") (λ v. v) >>= λ v. ok (v, r.1), w')

  -- The STEP_BEFORE hook.
  unfoldable pub step_before : StepDefinition → ExecutionContext → ℕ → ℕ → Result (Assoc Value)
  step_before step context step_index total_steps = elim plugins [
    | none ↦ ok step.params
    | some ps ↦
        execute_chain (λ p. p.on_step_before) ps
          (record {
            workflow_id = context.workflow.name;
            execution_id = context.execution_id;
            step_id = step.id;
            step_type = step_type step;
            tool_name = step.tool;
            params = step.params;
            step_index = step_index;
            total_steps = total_steps;
          })
        >>= λ r. ok r.current.params
  ]

  -- The STEP_AFTER hook with the arguments that the engine gives: no `tool_name` and no `params`.
  unfoldable pub step_after :
      StepDefinition → ExecutionContext → Option Value → Bool → Option Exc → Result Value
  step_after step context output success error = elim plugins [
    | none ↦ ok (or_else output Value.null)
    | some ps ↦
        step_result_context context.workflow.name context.execution_id step.id (step_type step) none
          none output success error
        >>= λ c. execute_chain (λ p. p.on_step_after) ps c >>= λ r. ok r.current.output
  ]

  -- The call of a tool or of code.
  unfoldable pub dispatch_step :
      StepDefinition → ExecutionContext → Assoc Value → W → Result (Value × List String) × W
  dispatch_step step context params w = elim (step_type step) [
    | StepType.tool ↦
        let (v, w') = execute_tool_step step context params w in (v >>= λ o. ok (o, []), w')
    | StepType.code ↦ execute_code_step step context w
  ]

  -- The hook after a call that succeeded.
  unfoldable pub after_success :
      StepDefinition
      → ExecutionContext
      → Result (Value × List String)
      → Result (Value × List String)
  after_success step context (err e) = err e
  after_success step context (ok o) =
      step_after step context (some o.0) true none >>= λ final. ok (final, o.1)

  -- The body of the `try`.
  unfoldable pub try_step :
      StepDefinition → ExecutionContext → Assoc Value → W → Result (Value × List String) × W
  try_step step context params w =
      let (r, w') = dispatch_step step context params w in (after_success step context r, w')

  -- The `except` branch.
  unfoldable pub handle_failure : StepDefinition → ExecutionContext → Exc → Result StepResult
  handle_failure step context e =
      if is_tool_unavailable e && is_tool (step_type step) && skips_missing step.on_missing_tool
      then ok (record (step_result step.id StepStatus.skipped) {
        skip_reason = some (SkipReason.tool_missing step.tool);
      })
      else (step_after step context none false (some e) >>= λ _.
          ok (record (step_result step.id StepStatus.failed) { error = some e }))

  abbrev pub outcome :
      StepDefinition → ExecutionContext → Result (Value × List String) → Result StepResult
  outcome step context (ok o) =
      ok (record (step_result step.id StepStatus.completed) { output = o.0; debug_log = o.1 })
  outcome step context (err e) = handle_failure step context e

  -- `if step.when: ...`: whether the step is to be executed.
  unfoldable pub when_holds : StepDefinition → ExecutionContext → Result Bool
  when_holds step context =
      if truthy step.when
      then (render_when b (or_else step.when "") context >>= λ v. ok (is_truthy v))
      else ok true

  -- `_execute_step_once` behind the STEP_BEFORE hook and the `when` expression. Their exceptions,
  -- and one of the hook in the `except` branch, leave the method.
  unfoldable pub run_step :
      StepDefinition
      → ExecutionContext
      → Result (Assoc Value)
      → Result Bool
      → W
      → Result StepResult × W
  run_step step context (err e) holds w = (err e, w)
  run_step step context (ok params) (err e) w = (err e, w)
  run_step step context (ok params) (ok false) w = (
    ok (record (step_result step.id StepStatus.skipped) {
      skip_reason = some (SkipReason.when_unmet step.when);
    }),
    w,
  )
  run_step step context (ok params) (ok true) w =
      let (r, w') = try_step step context params w in (outcome step context r, w')

  unfoldable pub execute_step_once :
      StepDefinition → ExecutionContext → ℕ → ℕ → W → Result StepResult × W
  execute_step_once step context step_index total_steps w =
      run_step step context (step_before step context step_index total_steps)
        (when_holds step context) w
