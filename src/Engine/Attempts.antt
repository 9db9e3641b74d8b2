-- ===== src/Engine/Attempts.antt =====
-- What `_execute_step` returns: the status, the step and the number of attempts.
use ploston_core.Prelude.{
  ℕ, zero, suc, ◌+◌, ◌≤◌, String, ◌≡◌, refl, Bool, true, false, ◌||◌, Option, List, arith, is_some,
}
use ploston_core.Prelude.Assoc.{Assoc}
use ploston_core.Errors.{Exc, Result, ok, err}
use ploston_core.Types.{StepStatus}
use ploston_core.Value.{Value}
use ploston_core.Workflow.{StepDefinition}
use ploston_core.Plugins.{Plugin}
use ploston_core.Engine.{
  StepResult, is_completed, is_failed, is_skipped, ExecutionContext, StepExecutionConfig,
  get_step_config, Backend,
}
use ploston_core.Engine.Step.{
  is_skip, step_before, try_step, handle_failure, outcome, when_holds, run_step, execute_step_once,
}
use ploston_core.Engine.Retry.{
  attempts_of, delay_of, after_attempt, after_once, retry_loop, execute_step,
}

-- A step ends completed, failed or skipped.
abbrev pub IsSettled : StepStatus → Type 0
IsSettled s = (is_completed s || is_failed s || is_skipped s) ≡ true

abbrev pub IsOwn : StepDefinition → StepResult → Type 0
IsOwn step r = (r.step_id ≡ step.id) × IsSettled r.status

-- The effective configuration of a step.
abbrev pub config_of :
    {W : Type 0} → Backend W → StepDefinition → ExecutionContext → StepExecutionConfig
config_of b step context = get_step_config b.default_timeout step context.workflow

-- What `_execute_step` guarantees of its result.
pub record IsReturned (step : StepDefinition) (config : StepExecutionConfig) (r : StepResult)
    : Type 0 where
  pub own : IsOwn step r
  -- With `on_error: skip` no step ends failed.
  pub not_failed : is_skip config.on_error ≡ true → is_failed r.status ≡ false
  -- The attempts are counted from 1 and stay within the limit.
  pub counted : r.attempt ≤ attempts_of config.retry
  pub from_one : 1 ≤ r.attempt
  pub limit : r.max_attempts ≡ attempts_of config.retry
  -- Without `skip`, a step that did not complete used up its attempts.
  pub exhausted :
      is_skip config.on_error ≡ false
      → is_completed r.status ≡ false
      → r.attempt ≡ attempts_of config.retry

module _ {W : Type 0} (b : Backend W) (plugins : Option (List Plugin)) (step : StepDefinition)
    (context : ExecutionContext) where
  handle_failure-IsOwn :
      (e : Exc) {r : StepResult} → handle_failure b plugins step context e ≡ ok r → IsOwn step r
  unfolding handle_failure is_completed is_failed is_skipped
  handle_failure-IsOwn e h = ground arith

  outcome-IsOwn :
      (o : Result (Value × List String)) {r : StepResult}
      → outcome b plugins step context o ≡ ok r
      → IsOwn step r
  unfolding is_completed
  outcome-IsOwn (Result.ok o) h = ground arith
  outcome-IsOwn (Result.err e) h = handle_failure-IsOwn e h

  run_step-IsOwn :
      (before : Result (Assoc Value)) (holds : Result Bool) (w : W) {r : StepResult}
      → (run_step b plugins step context before holds w).0 ≡ ok r
      → IsOwn step r
  unfolding run_step is_completed is_failed is_skipped
  run_step-IsOwn (err e) holds w h = cc
  run_step-IsOwn (ok params) (err e) w h = cc
  run_step-IsOwn (ok params) (ok false) w h = ground arith
  run_step-IsOwn (ok params) (ok true) w h =
      outcome-IsOwn (try_step b plugins step context params w).0 h

  module _ (config : StepExecutionConfig) where
    after_attempt-IsReturned :
        (attempt : ℕ) (again : W → Result StepResult × W) (result : StepResult) (w : W)
        {r : StepResult}
        → IsOwn step result
        → 1 ≤ attempt
        → attempt ≤ attempts_of config.retry
        → ((v : W) → (again v).0 ≡ ok r → IsReturned step config r)
        → (after_attempt b plugins config attempt again result w).0 ≡ ok r
        → IsReturned step config r
    unfolding after_attempt is_completed is_failed is_skipped
    after_attempt-IsReturned attempt again result w own from bound rest h =
        ground (arith, rest (b.sleep (delay_of attempt config.retry) w))

    after_once-IsReturned :
        (attempt : ℕ) (again : W → Result StepResult × W) (o : Result StepResult × W)
        {r : StepResult}
        → ((q : StepResult) → o.0 ≡ ok q → IsOwn step q)
        → 1 ≤ attempt
        → attempt ≤ attempts_of config.retry
        → ((v : W) → (again v).0 ≡ ok r → IsReturned step config r)
        → (after_once b plugins config attempt again o).0 ≡ ok r
        → IsReturned step config r
    unfolding after_once
    after_once-IsReturned attempt again (err e, w) own from bound rest h = cc
    after_once-IsReturned attempt again (ok result, w) own from bound rest h =
        after_attempt-IsReturned attempt again result w (own result refl) from bound rest h

    retry_loop-IsReturned :
        (index total left attempt : ℕ) (w : W) {r : StepResult}
        → 1 ≤ attempt
        → left + attempt ≡ suc (attempts_of config.retry)
        → (retry_loop b plugins step context index total config left attempt w).0 ≡ ok r
        → IsReturned step config r
    unfolding retry_loop execute_step_once
    retry_loop-IsReturned index total zero attempt w from bound h = cc
    retry_loop-IsReturned index total (suc left) attempt w from bound h =
        after_once-IsReturned attempt
          (λ v. retry_loop b plugins step context index total config left (attempt + 1) v)
          (execute_step_once b plugins step context index total w)
          (λ q.
            run_step-IsOwn (step_before b plugins step context index total)
              (when_holds b plugins step context) w)
          from (omega arith)
          (λ v. retry_loop-IsReturned index total left (attempt + 1) v (omega arith) (omega arith))
          h

-- Where `_execute_step` returns a result, it is the step's own and completed, failed or skipped.
-- It is not failed if the effective `on_error` is `skip`. Its attempt number is at least 1 and at
-- most the effective `max_attempts` (1 without a retry policy), which it records; where `on_error`
-- is not `skip` and the step is not completed, it equals `max_attempts`, whatever the errors were.
pub execute_step-IsReturned :
    {W : Type 0} (b : Backend W) (plugins : Option (List Plugin)) (step : StepDefinition)
    (context : ExecutionContext) (index total : ℕ) (w : W) (r : StepResult)
    → (execute_step b plugins step context index total w).0 ≡ ok r
    → IsReturned step (config_of b step context) r
unfolding execute_step
execute_step-IsReturned b plugins step context index total w r h =
    let config = config_of b step context in
    retry_loop-IsReturned b plugins step context config index total (attempts_of config.retry) 1 w
      (omega arith) (omega arith) h

-- The delays of a retry loop that makes every attempt.
unfoldable pub delays : {W : Type 0} → Backend W → StepExecutionConfig → ℕ → ℕ → W → W
delays b config zero attempt w = w
delays b config (suc left) attempt w =
    delays b config left (attempt + 1) (b.sleep (delay_of attempt config.retry) w)

module _ {W : Type 0} (b : Backend W) (plugins : Option (List Plugin)) (step : StepDefinition)
    (context : ExecutionContext) (config : StepExecutionConfig) (index total : ℕ)
    (params : Assoc Value) (before : step_before b plugins step context index total ≡ ok params)
    (unmet : when_holds b plugins step context ≡ ok false)
    (no_skip : is_skip config.on_error ≡ false) (policy : is_some config.retry ≡ true) where
  execute_step_once-unmet :
      (w : W)
      → execute_step_once b plugins step context index total w
        ≡ run_step b plugins step context (ok params) (ok false) w
  unfolding execute_step_once
  execute_step_once-unmet w = cc

  retry_loop-unmet :
      (left attempt : ℕ) (w : W)
      → suc left + attempt ≡ suc (attempts_of config.retry)
      → (retry_loop b plugins step context index total config (suc left) attempt w).1
        ≡ delays b config left attempt w
  unfolding retry_loop delays after_once run_step after_attempt is_completed
  retry_loop-unmet zero attempt w bound = rw execute_step_once-unmet (ground arith)
  retry_loop-unmet (suc left) attempt w bound =
      let later = b.sleep (delay_of attempt config.retry) w in
      rw execute_step_once-unmet
        (ground (arith, retry_loop-unmet left (attempt + 1) later (omega arith)))

-- A step whose `when` condition is not met, with a retry policy and an `on_error` other than
-- `skip`, is evaluated once for each attempt: between the attempts all retry delays are slept
-- through.
pub execute_step_unmet_waits :
    {W : Type 0} (b : Backend W) (plugins : Option (List Plugin)) (step : StepDefinition)
    (context : ExecutionContext) (index total : ℕ) (params : Assoc Value) (w : W) (left : ℕ)
    → step_before b plugins step context index total ≡ ok params
    → when_holds b plugins step context ≡ ok false
    → is_skip (config_of b step context).on_error ≡ false
    → is_some (config_of b step context).retry ≡ true
    → attempts_of (config_of b step context).retry ≡ suc left
    → (execute_step b plugins step context index total w).1
      ≡ delays b (config_of b step context) left 1 w
unfolding execute_step
execute_step_unmet_waits b plugins step context index total params w left before unmet no_skip
      policy many =
    rw many (
      retry_loop-unmet b plugins step context (config_of b step context) index total params before
        unmet no_skip policy left 1 w (omega arith))
