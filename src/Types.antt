-- ===== src/Types.antt =====
-- src/ploston_core/types: the enumerations and the retry settings that the components share.
use Prim.Native.Nat.{ℕ}

pub data BackoffType : Type 0 where
  fixed exponential : BackoffType

pub data OnError : Type 0 where
  fail skip retry : OnError

pub data OnMissingTool : Type 0 where
  fail skip : OnMissingTool

pub data StepType : Type 0 where
  tool code : StepType

pub data ExecutionStatus : Type 0 where
  pending running completed failed cancelled : ExecutionStatus

pub data StepStatus : Type 0 where
  pending running completed failed skipped : StepStatus

pub data ToolSource : Type 0 where
  mcp http system native : ToolSource

pub data ToolStatus : Type 0 where
  available unavailable unknown : ToolStatus

-- `delay_seconds` is a float in the source; the delays here are whole seconds.
pub record RetryConfig : Type 0 where
  pub max_attempts : ℕ
  pub backoff : BackoffType
  pub delay_seconds : ℕ
