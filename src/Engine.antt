-- ===== src/Engine.antt =====
-- The state of src/ploston_core/engine: step results, the execution context, and what the engine
-- asks of the components that it calls. Times and durations are not modelled, and of
-- `error_metadata` only what a cascade skip records.
pub mod Normalize
pub mod Rendering
pub mod Resolve
pub mod Step
pub mod Retry
pub mod Outputs
pub mod Run
pub mod Execute
pub mod Attempts
pub mod Hooks
pub mod Recorded
pub mod Calls
pub mod Safety
pub mod Planned
pub mod Totals
use ploston_core.Prelude.{
  ℕ, String, Bool, true, false, ◌&&◌, ◌||◌, Option, none, some, List, [], ◌∷◌, or_else,
  if◌then◌else◌,
}
use ploston_core.Prelude.Assoc.{Assoc, lookup, insert}
use ploston_core.Prelude.Int.{pos}
use ploston_core.Errors.{Exc, Result}
use ploston_core.Template.{Python}
use ploston_core.Runners.{Registry}
use ploston_core.Types.{OnError, StepStatus, RetryConfig}
use ploston_core.Value.{Value, Fields, end, field, list_of_texts}
use ploston_core.Workflow.{WorkflowDefaults, StepDefinition, WorkflowDefinition}

-- `skip_reason`, a text in the source, by its cases.
pub data SkipReason : Type 0 where
  -- "dependency '{root_id}' did not complete"
  dependency : String → SkipReason
  -- "when condition not met: {step.when}"
  when_unmet : Option String → SkipReason
  -- "Tool '{step.tool}' not registered (on_missing_tool: skip)"
  tool_missing : Option String → SkipReason
  -- "Skipped due to error: {result.error}"
  after_error : Option Exc → SkipReason

-- `build_skipped_metadata(root_cause_step_id, root_cause_error)`
pub record SkippedMetadata : Type 0 where
  pub root_cause_step_id : String
  pub root_cause_error : Option Exc
  pub root_cause_skip : Option SkipReason

pub record StepResult : Type 0 where
  pub step_id : String
  pub status : StepStatus
  pub output : Value
  pub error : Option Exc
  pub skip_reason : Option SkipReason
  pub error_metadata : Option SkippedMetadata
  pub attempt : ℕ
  pub max_attempts : ℕ
  pub debug_log : List String

-- The dataclass defaults, behind the two fields without one.
abbrev pub step_result : String → StepStatus → StepResult
step_result step_id status = record {
  step_id = step_id;
  status = status;
  output = Value.null;
  error = none;
  skip_reason = none;
  error_metadata = none;
  attempt = 1;
  max_attempts = 1;
  debug_log = [];
}

unfoldable pub status_text : StepStatus → String
status_text StepStatus.pending = "pending"
status_text StepStatus.running = "running"
status_text StepStatus.completed = "completed"
status_text StepStatus.failed = "failed"
status_text StepStatus.skipped = "skipped"

unfoldable pub is_completed : StepStatus → Bool
is_completed StepStatus.completed = true
is_completed _ = false

unfoldable pub is_failed : StepStatus → Bool
is_failed StepStatus.failed = true
is_failed _ = false

unfoldable pub is_skipped : StepStatus → Bool
is_skipped StepStatus.skipped = true
is_skipped _ = false

-- `str(e)`, or None where there is no error.
abbrev pub error_value : (Exc → String) → Option Exc → Value
error_value show none = Value.null
error_value show (some e) = Value.str (show e)

-- `StepResult.to_step_output`, an object with its attributes.
unfoldable pub to_step_output : (Exc → String) → StepResult → Value
unfolding status_text is_completed list_of_texts
to_step_output show r = Value.object "StepOutput" (
    field "output" r.output (
      field "success" (Value.bool (is_completed r.status)) (
        field "duration_ms" (Value.int (pos 0)) (
          field "step_id" (Value.str r.step_id) (
            field "status" (Value.str (status_text r.status)) (
              field "error" (error_value show r.error)
                (field "debug_log" (Value.list (list_of_texts r.debug_log)) end)))))))

pub record ExecutionContext : Type 0 where
  pub execution_id : String
  pub workflow : WorkflowDefinition
  pub inputs : Assoc Value
  pub step_outputs : Assoc Value
  pub step_results : Assoc StepResult

unfoldable pub add_step_result : (Exc → String) → StepResult → ExecutionContext → ExecutionContext
unfolding to_step_output
add_step_result show r c = record c {
  step_results = insert r.step_id r c.step_results;
  step_outputs = insert r.step_id (to_step_output show r) c.step_outputs;
}

pub record StepExecutionConfig : Type 0 where
  pub timeout_seconds : ℕ
  pub on_error : OnError
  pub retry : Option RetryConfig

abbrev first_of_three : {A : Type 0} → Option A → Option A → A → A
first_of_three (some a) b c = a
first_of_three none (some b) c = b
first_of_three none none c = c

abbrev default_of : {A : Type 0} → (WorkflowDefaults → A) → Option WorkflowDefaults → Option A
default_of f none = none
default_of f (some d) = some (f d)

abbrev default_retry : Option RetryConfig → Option WorkflowDefaults → Option RetryConfig
default_retry (some r) d = some r
default_retry none none = none
default_retry none (some d) = d.retry

-- `_get_step_config`: step, then workflow defaults, then the system's timeout.
unfoldable pub get_step_config : ℕ → StepDefinition → WorkflowDefinition → StepExecutionConfig
get_step_config default_timeout step workflow = record {
  timeout_seconds =
      first_of_three step.timeout (default_of (λ d. d.timeout) workflow.defaults) default_timeout;
  on_error =
      first_of_three step.on_error (default_of (λ d. d.on_error) workflow.defaults) OnError.fail;
  retry = default_retry step.retry workflow.defaults;
}

-- `_find_failed_dependency`: the first dependency whose result is failed or skipped.
unfoldable pub find_failed : List String → Assoc StepResult → Option (String × StepResult)
unfolding is_failed is_skipped
find_failed [] results = none
find_failed (dep_id ∷ deps) results =
    let rest = find_failed deps results in
    elim (lookup dep_id results) [
      | none ↦ rest
      | some prior ↦
          if is_failed prior.status || is_skipped prior.status then some (dep_id, prior) else rest
    ]

unfoldable pub find_failed_dependency :
    StepDefinition → ExecutionContext → Option (String × StepResult)
unfolding find_failed
find_failed_dependency step context = find_failed (or_else step.depends_on []) context.step_results

pub record ToolCallResult : Type 0 where
  pub success : Bool
  pub output : Value
  pub error : Option Exc

-- What the engine calls. `W` is what the outside keeps between calls: the servers behind the tool
-- invoker, the sandbox, and the clock that a retry delay waits on.
pub record Backend (W : Type 0) : Type 0 where
  -- The tool invoker, with a name, parameters and a timeout.
  pub invoke : String → Assoc Value → ℕ → W → Result ToolCallResult × W
  -- The tool invoker at `python_exec`, with the code and the context; the log is the sandbox's.
  pub run_code :
      Option String → ExecutionContext → ℕ → W → (Result ToolCallResult × List String) × W
  -- What the template engine asks of Python, and what the contexts of templates hold besides.
  pub python : Python
  pub config : Fields
  pub started_at : Value
  -- The runner registry, if there is one, and the runner of the bridge of the call.
  pub runners : W → Option Registry
  pub bridge_runner : Option String
  -- `json.loads(v)`, `none` for a JSONDecodeError or a TypeError.
  pub loads : Value → Option Value
  pub sleep : ℕ → W → W
  -- `str(e)`
  pub show : Exc → String
  -- `getattr(v, name)` if `hasattr(v, name)`, for values other than `StepOutput` objects.
  pub get_attr : Value → String → Option Value
  pub default_timeout : ℕ
