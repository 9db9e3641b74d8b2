-- ===== src/Engine/Retry.antt =====
-- `_execute_step` of src/ploston_core/engine/engine.py: the attempts at one step.
use ploston_core.Prelude.{
  ℕ, zero, suc, ◌+◌, ◌&&◌, Option, none, some, List, ltb, is_some, if◌then◌else◌,
}
use ploston_core.Errors.{Exc, Result, ok, err}
use ploston_core.Types.{StepStatus, RetryConfig}
use ploston_core.Workflow.{StepDefinition}
use ploston_core.Plugins.{Plugin}
use ploston_core.Engine.{
  SkipReason, StepResult, is_completed, ExecutionContext, StepExecutionConfig, get_step_config,
  Backend,
}
use ploston_core.Engine.Step.{is_skip, calculate_retry_delay, execute_step_once}

-- `retry.max_attempts if retry else 1`
abbrev pub attempts_of : Option RetryConfig → ℕ
attempts_of none = 1
attempts_of (some r) = r.max_attempts

abbrev pub delay_of : ℕ → Option RetryConfig → ℕ
delay_of attempt none = 0
delay_of attempt (some r) = calculate_retry_delay attempt r

module _ {W : Type 0} (b : Backend W) (plugins : Option (List Plugin)) where
  -- What follows an attempt that returned `r`: `again` is the rest of the loop.
  unfoldable pub after_attempt :
      StepExecutionConfig → ℕ → (W → Result StepResult × W) → StepResult → W → Result StepResult × W
  after_attempt config attempt again result w =
      let r = record result { attempt = attempt; max_attempts = attempts_of config.retry } in
      if is_completed r.status
      then (ok r, w)
      else if is_skip config.on_error
      then (
        ok (record r {
          status = StepStatus.skipped;
          skip_reason = some (SkipReason.after_error r.error);
        }),
        w,
      )
      else if is_some config.retry && ltb attempt (attempts_of config.retry)
      then again (b.sleep (delay_of attempt config.retry) w)
      else (ok r, w)

  -- What follows a call of `_execute_step_once`, which may have raised.
  unfoldable pub after_once :
      StepExecutionConfig
      → ℕ
      → (W → Result StepResult × W)
      → Result StepResult × W
      → Result StepResult × W
  after_once config attempt again (err e, w) = (err e, w)
  after_once config attempt again (ok result, w) = after_attempt config attempt again result w

  -- The `for attempt in range(1, ... + 1)` loop with `left` rounds to go. Without a round the
  -- method reaches `return result` with no `result`.
  unfoldable pub retry_loop :
      StepDefinition
      → ExecutionContext
      → ℕ
      → ℕ
      → StepExecutionConfig
      → ℕ
      → ℕ
      → W
      → Result StepResult × W
  retry_loop step context index total config zero attempt w = (err Exc.unbound_local, w)
  retry_loop step context index total config (suc left) attempt w =
      after_once config attempt
        (λ v. retry_loop step context index total config left (attempt + 1) v)
        (execute_step_once b plugins step context index total w)

  unfoldable pub execute_step :
      StepDefinition → ExecutionContext → ℕ → ℕ → W → Result StepResult × W
  execute_step step context index total w =
      let config = get_step_config b.default_timeout step context.workflow in
      retry_loop step context index total config (attempts_of config.retry) 1 w
