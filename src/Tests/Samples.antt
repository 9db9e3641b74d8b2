-- ===== src/Tests/Samples.antt =====
-- Small workflows and a backend that answers from tables.
use ploston_core.Prelude.{
  ℕ, ◌+◌, String, true, false, Option, none, some, List, [], ◌∷◌, ◌==◌, if◌then◌else◌,
}
use ploston_core.Errors.{ok, ael}
use ploston_core.Value.{Value, end, field}
use ploston_core.Tests.Templates.{py}
use ploston_core.Workflow.{StepDefinition, WorkflowDefinition}
use ploston_core.Engine.{ExecutionContext, Backend}

-- A tool step with dependencies.
abbrev pub tool_step : String → String → Option (List String) → StepDefinition
tool_step id tool depends_on = record {
  id = id;
  tool = some tool;
  code = none;
  mcp = some "system";
  params = [];
  depends_on = depends_on;
  on_error = none;
  timeout = none;
  retry = none;
  on_missing_tool = none;
  when = none;
}

abbrev pub workflow_of : List StepDefinition → WorkflowDefinition
workflow_of steps = record {
  name = "sample";
  version = "1";
  defaults = none;
  inputs = [];
  steps = steps;
  outputs = [];
}

-- c needs b, and b needs a; they stand in the reverse order.
abbrev pub chain : WorkflowDefinition
chain = workflow_of (
    tool_step "c" "echo" (some ("b" ∷ []))
    ∷ tool_step "b" "echo" (some ("a" ∷ []))
    ∷ tool_step "a" "echo" none
    ∷ [])

-- b lists a twice.
abbrev pub repeated : WorkflowDefinition
repeated =
    workflow_of (tool_step "a" "echo" none ∷ tool_step "b" "echo" (some ("a" ∷ "a" ∷ [])) ∷ [])

-- b depends on a step that is not there.
abbrev pub dangling : WorkflowDefinition
dangling = workflow_of (tool_step "a" "echo" none ∷ tool_step "b" "echo" (some ("z" ∷ [])) ∷ [])

-- The tool `echo` succeeds, any other fails. The state counts the calls and the seconds slept.
abbrev pub backend : Backend ℕ
backend = record {
  invoke = λ name params timeout w. (
    ok (
        if name == "echo"
        then record { success = true; output = Value.str "done"; error = none }
        else record {
          success = false;
          output = Value.null;
          error = some (ael "TOOL_FAILED" name);
        }),
    w + 1,
  );
  run_code = λ code context timeout w.
      ((ok (record { success = true; output = Value.null; error = none }), []), w + 1);
  python = py;
  config = field "enabled" (Value.bool false) end;
  started_at = Value.null;
  runners = λ w. none;
  bridge_runner = none;
  loads = λ v. none;
  sleep = λ seconds w. w + seconds;
  show = λ e. "error";
  get_attr = λ v name. none;
  default_timeout = 30;
}

abbrev pub context_of : WorkflowDefinition → ExecutionContext
context_of workflow = record {
  execution_id = "exec-1";
  workflow = workflow;
  inputs = [];
  step_outputs = [];
  step_results = [];
}
