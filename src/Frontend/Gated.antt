-- ===== src/Frontend/Gated.antt =====
-- The modes of the MCP frontend: which components a call can reach in each.
use ploston_core.Prelude.{
  ◌≡◌, String, Bool, false, ◌||◌, Option, none, some, ◌==◌, refl, arith, or_else, if◌then◌else◌,
}
use ploston_core.Prelude.Assoc.{Assoc}
use ploston_core.Errors.{Result, ok, err}
use ploston_core.Value.{Value, Fields, get_field}
use ploston_core.Modes.{Mode, same_mode}
use ploston_core.Engine.{ToolCallResult}
use ploston_core.Engine.Execute.{ExecutionResult}
use ploston_core.Runners.{Runner, Registry, get_by_name}
use ploston_core.Invoker.{invoke, parse_tool_prefix}
use ploston_core.Frontend.{
  Handlers, Frontend, Response, handed_on, labelled, execute_tool, execute_workflow, runner_prefix,
  call_runner, execute_runner_tool, from_runner, answer_of, from_invoker, from_engine, text_or_json,
  handle_config_tool_call, call_registered, call_managed, route, handle_tools_call,
}

-- The handlers `h`, and those of `other` in place of the ones that are barred in a mode: outside the
-- mode CONFIGURATION the config tools, in it the management tools, the engine and the tool invoker.
abbrev pub swapped : {W : Type 0} → Mode → Handlers W → Handlers W → Handlers W
swapped mode h other =
    let configuring = same_mode mode Mode.configuration in
    record h {
      configure = if configuring then h.configure else other.configure;
      manage = if configuring then other.manage else h.manage;
      execute = if configuring then other.execute else h.execute;
      backends = if configuring then other.backends else h.backends;
    }

-- The names that leave the running mode.
abbrev pub is_switch : Mode → String → Bool
is_switch Mode.configuration name = false
is_switch Mode.running name = name == "configure" || name == "ploston:configure"

module _ {W : Type 0} (h other : Handlers W) (mode : Mode) where
  text_lem : (v : Value) → text_or_json h v ≡ text_or_json (swapped mode h other) v
  unfolding text_or_json
  text_lem (Value.str s) = refl
  text_lem v = refl

  answer_lem : (d : Fields) → answer_of h d ≡ answer_of (swapped mode h other) d
  unfolding answer_of
  answer_lem d = ground (arith, text_lem (or_else (get_field "output" d) (Value.dict d)))

  from_runner_lem :
      (name : String) (r : Result Fields × W)
      → from_runner h name r ≡ from_runner (swapped mode h other) name r
  unfolding from_runner
  from_runner_lem name (err e, w) = refl
  from_runner_lem name (ok d, w) = rw (answer_lem d)

  from_invoker_lem :
      (r : Result ToolCallResult × W) → from_invoker h r ≡ from_invoker (swapped mode h other) r
  unfolding from_invoker
  from_invoker_lem (err e, w) = refl
  from_invoker_lem (ok r, w) = ground (arith, text_lem r.output)

  from_engine_lem :
      (r : Result ExecutionResult × W) → from_engine h r ≡ from_engine (swapped mode h other) r
  unfolding from_engine
  from_engine_lem (err e, w) = refl
  from_engine_lem (ok r, w) = refl

  module _ (f : Frontend) (tool : String) (arguments : Assoc Value) (w : W) where
    call_runner_lem :
        (name : String) (r : Option Runner)
        → call_runner h f.connections name tool arguments r w
          ≡ call_runner (swapped mode h other) f.connections name tool arguments r w
    unfolding call_runner
    call_runner_lem name none = refl
    call_runner_lem name (some r) = rw (from_runner_lem name (h.send r.id tool arguments 60 w))

    execute_runner_tool_lem :
        (runner : String) (runners : Option Registry)
        → f.runners ≡ runners
        → execute_runner_tool h f runner tool arguments w
          ≡ execute_runner_tool (swapped mode h other) f runner tool arguments w
    unfolding execute_runner_tool call_runner
    execute_runner_tool_lem runner none e = rw e
    execute_runner_tool_lem runner (some registry) e =
        rw e (call_runner_lem (labelled runner tool) (get_by_name runner registry))

module _ {W : Type 0} (h other : Handlers W) (f : Frontend) (name : String)
    (arguments : Assoc Value) (w : W) where
  config_lem :
      (mode : Mode)
      → f.mode ≡ mode
      → is_switch mode name ≡ false
      → handle_config_tool_call h f name arguments w
        ≡ handle_config_tool_call (swapped mode h other) f name arguments w
  unfolding handle_config_tool_call same_mode
  config_lem Mode.configuration e s = refl
  config_lem Mode.running e s = ground (arith, e)

  served_lem :
      (mode : Mode)
      → mode ≡ Mode.running
      → (execute_tool h f name arguments w ≡ execute_tool (swapped mode h other) f name arguments w)
        × (execute_workflow h name arguments w
            ≡ execute_workflow (swapped mode h other) name arguments w)
  unfolding execute_tool execute_workflow same_mode
  served_lem Mode.running e = (
    from_invoker_lem h other Mode.running (invoke h.backends f.tools name arguments none w),
    from_engine_lem h other Mode.running (h.execute name arguments w),
  )
  served_lem Mode.configuration e = cc

  registered_lem :
      (mode : Mode)
      → f.mode ≡ mode
      → call_registered h f name arguments w
        ≡ call_registered (swapped mode h other) f name arguments w
  unfolding call_registered same_mode
  registered_lem Mode.configuration e = ground arith
  registered_lem Mode.running e =
      let (tool, workflow) = served_lem Mode.running refl in rw (tool, workflow)

  provided_lem :
      {served served' : Result Response × W}
      → served ≡ served'
      → (manage : Option (String → Assoc Value → W → Result Fields × W))
      → (elim manage as (λ _. Result Response × W) [
        | none ↦ served
        | some call ↦ handed_on (call name arguments w)
      ])
        ≡ (elim manage [ none ↦ served' | some call ↦ handed_on (call name arguments w) ])
  provided_lem e none = e
  provided_lem e (some call) = refl

  managed_lem :
      (mode : Mode)
      → f.mode ≡ mode
      → call_managed h f name arguments w ≡ call_managed (swapped mode h other) f name arguments w
  unfolding call_managed same_mode
  managed_lem Mode.configuration e = ground (arith, registered_lem Mode.configuration e)
  managed_lem Mode.running e =
      rw (provided_lem (registered_lem Mode.running e) h.manage, registered_lem Mode.running e)

  prefixed_lem :
      (mode : Mode)
      → f.mode ≡ mode
      → (target : Option (String × String))
      → (elim target [
        | some (runner, tool) ↦ execute_runner_tool h f runner tool arguments w
        | none ↦ call_managed h f name arguments w
      ])
        ≡ (elim target [
          | some (runner, tool) ↦
              execute_runner_tool (swapped mode h other) f runner tool arguments w
          | none ↦ call_managed (swapped mode h other) f name arguments w
        ])
  prefixed_lem mode e none = managed_lem mode e
  prefixed_lem mode e (some (runner, tool)) =
      execute_runner_tool_lem h other mode f tool arguments w runner f.runners refl

  route-swapped :
      is_switch f.mode name ≡ false
      → route h f name arguments w ≡ route (swapped f.mode h other) f name arguments w
  unfolding route
  route-swapped s =
      rw (
        config_lem f.mode refl s,
        prefixed_lem f.mode refl (runner_prefix (parse_tool_prefix name)),
      )

-- A call gives the same answer, and leaves the outside the same, whatever the handlers are that the
-- mode bars: while the mode is CONFIGURATION the management tools, the workflow engine and the tool
-- invoker, and while it is RUNNING, for all names but `configure` and `ploston:configure`, the config
-- tools.
pub handle_tools_call-swapped :
    {W : Type 0} (h other : Handlers W) (f : Frontend) (name : Option String)
    (arguments : Assoc Value) (w : W)
    → is_switch f.mode (or_else name "") ≡ false
    → handle_tools_call h f name arguments w
      ≡ handle_tools_call (swapped f.mode h other) f name arguments w
unfolding handle_tools_call
handle_tools_call-swapped h other f name arguments w s =
    rw (route-swapped h other f (or_else name "") arguments w s)
