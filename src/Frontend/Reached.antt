-- ===== src/Frontend/Reached.antt =====
-- What a call of the MCP frontend reaches: the tools of runners, and the workflows that the registry
-- accepted.
use Prim.Native.String
use mathlib.Core.Path.{subst}
use ploston_core.Prelude.{
  ◌≡◌, ◌∙◌, ◌&&◌, ◌||◌, not, refl, ap, Option, String, true, false, none, some, ◌==◌, mem, arith,
  is_some, Bool, truthy, eq_iff, Bool-cases, inl, inr, if◌then◌else◌, ℕ,
}
use ploston_core.Prelude.Assoc.{Assoc}
use ploston_core.Errors.{Result, ok}
use ploston_core.Value.{Value, Fields}
use ploston_core.Modes.{Mode, same_mode}
use ploston_core.Validation.{ValidationResult}
use ploston_core.Workflow.{WorkflowDefinition}
use ploston_core.Runners.{Runner, Registry, is_connected, get_by_name}
use ploston_core.Runners.Names.{split_name, split_from}
use ploston_core.Runners.Dispatch.{dispatch, dispatch_to, sent}
use ploston_core.Tools
use ploston_core.Registrations
use ploston_core.Registrations.{WorkflowRegistry, register}
use ploston_core.Registrations.Accepted.{IsRegistered, register-IsRegistered}
use ploston_core.Invoker.{
  Backends, parse_tool_prefix, format_tool_name, invoke, invoke_named, invoke_runner,
  normalize_tool_name, runner_of, runner_timeout,
}
use ploston_core.Invoker
use ploston_core.Invoker.Names.{is_plain, parse_tool_prefix-format_tool_name}
use ploston_core.Frontend.{
  Handlers, Frontend, Response, execute_tool, handle_config_tool_call, labelled, sent_name,
  runner_prefix, is_config_name, is_mgmt_tool, from_runner, from_engine, call_runner,
  execute_runner_tool, execute_workflow, call_registered, call_managed, route, handle_tools_call,
}

abbrev pub own_name : String → String → String
own_name mcp tool = String.◌++◌ mcp (String.◌++◌ "__" tool)

-- A name that comes to the two registries while the mode is RUNNING.
unfoldable pub is_reached : {W : Type 0} → Handlers W → String → Bool
is_reached h name =
    truthy (some name)
    && not (is_config_name name)
    && not (is_some (runner_prefix (parse_tool_prefix name)))
    && not (is_mgmt_tool name && is_some h.manage)

module _ {W : Type 0} (h : Handlers W) (f : Frontend) (running : f.mode ≡ Mode.running)
    (name : String) (arguments : Assoc Value) (w : W) where
  managed_lem :
      (is_mgmt_tool name && is_some h.manage) ≡ false
      → call_managed h f name arguments w ≡ call_registered h f name arguments w
  unfolding call_managed same_mode
  managed_lem own = ground (arith, running)

  reached_lem :
      is_reached h name ≡ true
      → handle_tools_call h f (some name) arguments w ≡ call_registered h f name arguments w
  unfolding is_reached handle_tools_call route truthy
  reached_lem reached = ground (arith, managed_lem)

-- Another workflow registry behind the frontend.
module _ {W : Type 0} (h : Handlers W) (f : Frontend) (t : WorkflowRegistry)
    (running : f.mode ≡ Mode.running) (name : String) (arguments : Assoc Value) (w : W) where
  abbrev behind : Frontend
  behind = record f { workflows = t }

  kept_managed :
      (own : Bool) (manage : Option (String → Assoc Value → W → Result Fields × W))
      → is_mgmt_tool name ≡ own
      → h.manage ≡ manage
      → (own && is_some manage) ≡ true
      → call_managed h behind name arguments w ≡ call_managed h f name arguments w
  unfolding call_managed
  kept_managed true (some call) e m both = rw (e, m)
  kept_managed true none e m both = cc
  kept_managed false manage e m both = cc

  kept_target :
      (target : Option (String × String))
      → (is_some target || is_mgmt_tool name && is_some h.manage) ≡ true
      → (elim target as (λ _. Result Response × W) [
        | some (runner, tool) ↦ execute_runner_tool h behind runner tool arguments w
        | none ↦ call_managed h behind name arguments w
      ])
        ≡ (elim target [
          | some (runner, tool) ↦ execute_runner_tool h f runner tool arguments w
          | none ↦ call_managed h f name arguments w
        ])
  unfolding execute_runner_tool
  kept_target none own = kept_managed (is_mgmt_tool name) h.manage refl refl own
  kept_target (some (runner, tool)) own = refl

  kept_lem :
      is_reached h name ≡ false
      → handle_tools_call h behind (some name) arguments w
        ≡ handle_tools_call h f (some name) arguments w
  unfolding is_reached handle_tools_call route truthy handle_config_tool_call
  kept_lem other = ground (arith, kept_target (runner_prefix (parse_tool_prefix name)))

  other_lem :
      is_some (Registrations.get name t) ≡ is_some (Registrations.get name f.workflows)
      → call_registered h behind name arguments w ≡ call_registered h f name arguments w
  unfolding call_registered execute_tool
  other_lem same = rw same

  found_lem :
      is_some (Tools.get name f.tools) ≡ false
      → is_some (Registrations.get name t) ≡ true
      → call_registered h behind name arguments w ≡ from_engine h (h.execute name arguments w)
  unfolding call_registered execute_workflow same_mode
  found_lem absent there = ground (arith, absent, there, running)

-- What the registration of a workflow changes for calls, while the mode is RUNNING and the workflow
-- registry shares the tool registry of the frontend. A call of its name runs the workflow, if the name
-- comes to the registries: it is not empty, no config name, has no runner, and is not a management
-- tool's where there is a provider of these. All other calls are answered as before, and where the name
-- does not come to the registries, so is a call of it: the workflow is not reached.
pub handle_tools_call-register :
    {W : Type 0} (h : Handlers W) (f : Frontend) (t : WorkflowRegistry) (now : String)
    (d : WorkflowDefinition) (validated : Bool) (result : ValidationResult) (name : String)
    (arguments : Assoc Value) (w : W)
    → register now d validated f.workflows ≡ (ok result, t)
    → f.tools ≡ f.workflows.validator.tools
    → f.mode ≡ Mode.running
    → handle_tools_call h (record f { workflows = t }) (some name) arguments w ≡ (
        if d.name == name && is_reached h name
        then from_engine h (h.execute name arguments w)
        else handle_tools_call h f (some name) arguments w)
handle_tools_call-register h f t now d validated result name arguments w accepted tools running =
    let registered : IsRegistered d validated f.workflows (ok result, t) =
      subst (IsRegistered d validated f.workflows) accepted
        (register-IsRegistered now d validated f.workflows) in
    let found : Registrations.get name t
        ≡ (if d.name == name then some d else Registrations.get name f.workflows) =
      registered.3 name in
    elim (Bool-cases (is_reached h name)) [
      | inr hidden ↦ ground (arith, kept_lem h f t running name arguments w hidden, hidden)
      | inl reached ↦
          let now_at =
            reached_lem h (record f { workflows = t }) running name arguments w reached in
          let before_at = reached_lem h f running name arguments w reached in
          elim (Bool-cases (d.name == name)) [
            | inr other ↦
                rw (other, before_at)
                  (now_at
                    ∙ other_lem h f t running name arguments w (ap is_some (found ∙ rw other)))
            | inl same ↦
                let absent : is_some (Tools.get name f.tools) ≡ false = rw tools (
                  subst (λ n. is_some (Tools.get n f.workflows.validator.tools) ≡ false)
                    ((eq_iff d.name name).0 same) registered.0.1) in
                let there : is_some (Registrations.get name t) ≡ true = rw (found, same) in
                rw (same, reached) (now_at ∙ found_lem h f t running name arguments w absent there)
          ]
    ]

named_lem :
    (name : String) {target : String × String × String}
    → parse_tool_prefix name ≡ some target
    → truthy (some name) ≡ true
unfolding truthy parse_tool_prefix split_name split_from
named_lem name {target} e = elim (Bool-cases (name == "")) [
  | inr named ↦ rw named
  | inl empty ↦ absurd (
      let t : parse_tool_prefix "" ≡ some target =
        subst (λ n. parse_tool_prefix n ≡ some target) ((eq_iff name "").0 empty) e in
      cc t)
]

-- A call of a name `runner__mcp__tool`, where the runner's and the MCP's name have no "__" in them, no
-- underscore at their end and are not empty, and the whole is no config name, goes to that runner, if
-- it is in the registry, connected, and has an open websocket. Whatever the mode is and whatever the
-- other components have, it is sent the tool's own name with 60 seconds. An `invoke` of the same name
-- by the tool invoker with its dispatcher sends the same runner the same tool's name, with the timeout
-- that `invoke` is given, or 60 seconds without one or with 0.
pub handle_tools_call-runner :
    {W : Type 0} (h : Handlers W) (f : Frontend) (registry : Registry) (r : Runner)
    (runner mcp tool : String) (arguments : Assoc Value) (timeout : Option ℕ) (w : W)
    → f.runners ≡ some registry
    → get_by_name runner registry ≡ some r
    → is_connected r ≡ true
    → mem r.id f.connections ≡ true
    → h.backends.dispatch ≡ some (dispatch h.send registry)
    → is_plain false runner ≡ true
    → is_plain false mcp ≡ true
    → (runner == "") ≡ false
    → (mcp == "") ≡ false
    → is_config_name (format_tool_name runner mcp tool) ≡ false
    → (handle_tools_call h f (some (format_tool_name runner mcp tool)) arguments w
        ≡ from_runner h
            (labelled runner (own_name mcp tool))
            (h.send r.id (own_name mcp tool) arguments 60 w))
      × (invoke h.backends f.tools (format_tool_name runner mcp tool) arguments timeout w
          ≡ Invoker.from_runner h.backends (
              sent
                (own_name mcp tool)
                (h.send r.id (own_name mcp tool) arguments (runner_timeout timeout) w)))
unfolding handle_tools_call route runner_prefix sent_name execute_runner_tool call_runner invoke
    invoke_named invoke_runner normalize_tool_name runner_of dispatch dispatch_to truthy
handle_tools_call-runner h f registry r runner mcp tool arguments timeout w there known up reachable
      dispatcher plain plain' named named' config =
    let parts = parse_tool_prefix-format_tool_name runner mcp tool plain plain' in
    let named_whole = named_lem _ parts in
    (
      rw (named_whole, config, parts, named, named', there, known, reachable),
      rw (parts, named, named', dispatcher, known, up),
    )
