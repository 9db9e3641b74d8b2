-- ===== src/Engine/Hooks.antt =====
-- The STEP_AFTER hook of the engine: the context that it builds lacks required arguments.
use ploston_core.Prelude.{ℕ, String, ◌≡◌, refl, Bool, true, false, Option, none, some, List, arith}
use ploston_core.Prelude.Assoc.{Assoc}
use ploston_core.Errors.{Exc, Result, ok, err}
use ploston_core.Value.{Value}
use ploston_core.Workflow.{StepDefinition}
use ploston_core.Plugins.{Plugin, step_result_context}
use ploston_core.Engine.{ExecutionContext, Backend}
use ploston_core.Engine.Step.{
  skips_missing, step_before, step_after, dispatch_step, after_success, try_step, handle_failure,
  when_holds, run_step, execute_step_once,
}

module _ {W : Type 0} (b : Backend W) (ps : List Plugin) (step : StepDefinition)
    (context : ExecutionContext) where
  step_after-raises :
      (output : Option Value) (success : Bool) (error : Option Exc)
      → step_after b (some ps) step context output success error ≡ err Exc.type_error
  unfolding step_after step_result_context
  step_after-raises output success error = refl

  after_success-raises :
      (r : Result (Value × List String))
      → (e : Exc) × (after_success b (some ps) step context r ≡ err e)
  unfolding after_success
  after_success-raises (err e) = (e, refl)
  after_success-raises (ok o) = (Exc.type_error, rw (step_after-raises (some o.0) true none))

  -- Where the step is not skipped for a missing tool, its failure is not recorded.
  handle_failure-raises :
      (e : Exc)
      → skips_missing step.on_missing_tool ≡ false
      → handle_failure b (some ps) step context e ≡ err Exc.type_error
  unfolding handle_failure
  handle_failure-raises e h = ground (arith, step_after-raises none false (some e))

  run_step-raises :
      (params : Assoc Value) (w : W)
      → skips_missing step.on_missing_tool ≡ false
      → (run_step b (some ps) step context (ok params) (ok true) w).0 ≡ err Exc.type_error
  unfolding run_step try_step
  run_step-raises params w h =
      let (r, w') = dispatch_step b (some ps) step context params w in
      let (e, failed) = after_success-raises r in rw failed (handle_failure-raises e h)

-- With a plugin registry, and be it an empty one, `_execute_step_once` raises TypeError for every
-- step that is due (its STEP_BEFORE hooks return and its `when` condition is met) and that has not
-- `on_missing_tool: skip`, whether the call of the tool or of the code succeeds or fails.
pub execute_step_once_type_error :
    {W : Type 0} (b : Backend W) (ps : List Plugin) (step : StepDefinition)
    (context : ExecutionContext) (index total : ℕ) (params : Assoc Value) (w : W)
    → step_before b (some ps) step context index total ≡ ok params
    → when_holds b (some ps) step context ≡ ok true
    → skips_missing step.on_missing_tool ≡ false
    → (execute_step_once b (some ps) step context index total w).0 ≡ err Exc.type_error
unfolding execute_step_once
execute_step_once_type_error b ps step context index total params w before due h =
    rw (before, due) (run_step-raises b ps step context params w h)
