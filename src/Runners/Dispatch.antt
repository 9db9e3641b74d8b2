-- ===== src/Runners/Dispatch.antt =====
-- `RunnerToolDispatcher` of src/ploston_core/runner_management/dispatcher.py, which the tool invoker
-- calls. The websocket, `send_tool_call_to_runner`, is a parameter.
use ploston_core.Prelude.{ℕ, String, Option, none, some, ◌==◌, if◌then◌else◌}
use ploston_core.Prelude.Assoc.{Assoc}
use ploston_core.Errors.{Exc, ael, Result, ok, err}
use ploston_core.Value.{Value, Fields}
use ploston_core.Runners.{Runner, is_connected, Registry, get_by_name}

-- The two `except` clauses.
unfoldable pub unreached : String → Exc → Exc
unreached tool Exc.value_error = ael "TOOL_UNAVAILABLE" tool
unreached tool (Exc.other kind) =
    if kind == "TimeoutError" then ael "TOOL_UNAVAILABLE" tool else Exc.other kind
unreached tool e = e

unfoldable pub sent : {W : Type 0} → String → Result Fields × W → Result Value × W
sent tool (ok d, w) = (ok (Value.dict d), w)
sent tool (err e, w) = (err (unreached tool e), w)

module _ {W : Type 0} (send : String → String → Assoc Value → ℕ → W → Result Fields × W) where
  unfoldable pub dispatch_to : Option Runner → String → Assoc Value → ℕ → W → Result Value × W
  dispatch_to none tool arguments timeout w = (err (ael "TOOL_UNAVAILABLE" tool), w)
  dispatch_to (some r) tool arguments timeout w =
      if is_connected r
      then sent tool (send r.id tool arguments timeout w)
      else (err (ael "TOOL_UNAVAILABLE" tool), w)

  unfoldable pub dispatch : Registry → String → String → Assoc Value → ℕ → W → Result Value × W
  dispatch s runner_name tool arguments timeout w =
      dispatch_to (get_by_name runner_name s) tool arguments timeout w
