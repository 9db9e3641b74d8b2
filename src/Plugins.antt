-- ===== src/Plugins.antt =====
-- src/ploston_core/plugins: the contexts that hooks take, hook chains and the loading of plugins.
-- A hook is a function of its context: what a plugin keeps between calls and what it logs is not
-- modelled. Of the contexts the timing and `metadata` fields are left out.
pub mod Chain
pub mod Loading
use ploston_core.Prelude.{
  ℕ, String, Bool, true, false, ◌||◌, Option, none, some, List, [], ◌∷◌, ◌++◌, leb, if◌then◌else◌,
}
use ploston_core.Prelude.Assoc.{Assoc}
use ploston_core.Errors.{Exc, Result, ok, err}
use ploston_core.Types.{StepType}
use ploston_core.Value.{Value}

pub record RequestContext : Type 0 where
  pub workflow_id : String
  pub inputs : Assoc Value
  pub execution_id : String

pub record StepContext : Type 0 where
  pub workflow_id : String
  pub execution_id : String
  pub step_id : String
  pub step_type : StepType
  pub tool_name : Option String
  pub params : Assoc Value
  pub step_index : ℕ
  pub total_steps : ℕ

pub record StepResultContext : Type 0 where
  pub workflow_id : String
  pub execution_id : String
  pub step_id : String
  pub step_type : StepType
  pub tool_name : Option String
  pub params : Assoc Value
  pub output : Value
  pub success : Bool
  pub error : Option Exc

-- The call `StepResultContext(...)`: `tool_name`, `params` and `output` are given or left out. They
-- have no default, so leaving one out raises TypeError.
unfoldable pub step_result_context :
    String
    → String
    → String
    → StepType
    → Option (Option String)
    → Option (Assoc Value)
    → Option Value
    → Bool
    → Option Exc
    → Result StepResultContext
step_result_context w e s t (some tool_name) (some params) (some output) success error =
    ok (record {
      workflow_id = w;
      execution_id = e;
      step_id = s;
      step_type = t;
      tool_name = tool_name;
      params = params;
      output = output;
      success = success;
      error = error;
    })
step_result_context w e s t _ _ _ success error = err Exc.type_error

pub record ResponseContext : Type 0 where
  pub workflow_id : String
  pub execution_id : String
  pub inputs : Assoc Value
  pub outputs : Assoc Value
  pub success : Bool
  pub error : Option Exc
  pub step_count : ℕ

-- What a hook does: it returns a `HookResult` or a bare context, or raises.
pub data HookReturn (T : Type 0) : Type 0 where
  result : (current : T) (modified : Bool) → HookReturn T
  raw : T → HookReturn T
  raised : Exc → HookReturn T

pub record HookResult (T : Type 0) : Type 0 where
  pub current : T
  pub modified : Bool

pub record Plugin : Type 0 where
  pub name : String
  pub priority : ℕ
  pub fail_open : Bool
  pub on_request_received : RequestContext → HookReturn RequestContext
  pub on_step_before : StepContext → HookReturn StepContext
  pub on_step_after : StepResultContext → HookReturn StepResultContext
  pub on_response_ready : ResponseContext → HookReturn ResponseContext

-- `_execute_chain`, from a context and a flag onwards.
unfoldable pub run_chain :
    {T : Type 0} → (Plugin → T → HookReturn T) → List Plugin → T → Bool → Result (HookResult T)
run_chain hook [] current modified = ok (record { current = current; modified = modified })
run_chain hook (p ∷ plugins) current modified = elim (hook p current) [
  | HookReturn.result next changed ↦ run_chain hook plugins next (changed || modified)
  | HookReturn.raw next ↦ run_chain hook plugins next modified
  | HookReturn.raised e ↦ elim p.fail_open [
    | true ↦ run_chain hook plugins current modified
    | false ↦ err e
  ]
]

unfoldable pub execute_chain :
    {T : Type 0} → (Plugin → T → HookReturn T) → List Plugin → T → Result (HookResult T)
unfolding run_chain
execute_chain hook plugins context = run_chain hook plugins context false

-- `PluginDefinition` of the configuration, as far as the loading reads it.
pub record PluginDefinition : Type 0 where
  pub name : String
  pub enabled : Bool
  pub priority : ℕ

-- The overrides that `load_plugins` writes to a loaded plugin. A `PluginDefinition` has no
-- `fail_open` field, so the plugin's own setting stays.
unfoldable pub override : PluginDefinition → Plugin → Plugin
override defn plugin = record plugin { name = defn.name; priority = defn.priority }

pub record LoadResult : Type 0 where
  pub loaded : List Plugin
  pub failed : List (String × Exc)

-- The loop of `load_plugins`; `load` is `_load_plugin`, which imports code.
unfoldable pub load_loop :
    (PluginDefinition → Result (Option Plugin)) → List PluginDefinition → LoadResult → LoadResult
unfolding override
load_loop load [] r = r
load_loop load (defn ∷ definitions) r = elim defn.enabled [
  | false ↦ load_loop load definitions r
  | true ↦ elim (load defn) [
    | Result.ok (some plugin) ↦
        load_loop load definitions (record r { loaded = r.loaded ++ override defn plugin ∷ [] })
    | Result.ok none ↦ load_loop load definitions r
    | Result.err e ↦
        load_loop load definitions (record r { failed = r.failed ++ (defn.name, e) ∷ [] })
  ]
]

-- `sorted(..., key=lambda p: p.priority)`
unfoldable pub place_plugin : Plugin → List Plugin → List Plugin
place_plugin p [] = p ∷ []
place_plugin p (q ∷ qs) = if leb p.priority q.priority then p ∷ q ∷ qs else q ∷ place_plugin p qs

unfoldable pub sort_plugins : List Plugin → List Plugin
unfolding place_plugin
sort_plugins [] = []
sort_plugins (p ∷ ps) = place_plugin p (sort_plugins ps)

-- The registry's plugins after the call, and what the call returns.
unfoldable pub load_plugins :
    (PluginDefinition → Result (Option Plugin)) → List PluginDefinition → List Plugin × LoadResult
unfolding load_loop sort_plugins
load_plugins load definitions =
    let r = load_loop load definitions (record { loaded = []; failed = [] }) in
    (sort_plugins r.loaded, r)
