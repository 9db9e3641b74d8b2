-- ===== src/Tests/Hooks.antt =====
-- Plugin chains and the loading of plugins on small inputs.
use ploston_core.Prelude.{ℕ, ◌≡◌, refl, Bool, true, false, Option, some, List, [], ◌∷◌, String}
use ploston_core.Errors.{Exc, Result, ok, err}
use ploston_core.Plugins.{
  Plugin, HookReturn, RequestContext, execute_chain, run_chain, PluginDefinition,
}
use ploston_core.Plugins.Chain.{IsCulprit, execute_chain-IsCulprit}
use ploston_core.Plugins.Loading.{IsLoaded, load_plugins-IsLoaded}

-- A plugin that passes contexts on; `request` is its first hook.
abbrev plugin_of : String → ℕ → Bool → (RequestContext → HookReturn RequestContext) → Plugin
plugin_of name priority fail_open request = record {
  name = name;
  priority = priority;
  fail_open = fail_open;
  on_request_received = request;
  on_step_before = HookReturn.raw;
  on_step_after = HookReturn.raw;
  on_response_ready = HookReturn.raw;
}

-- The first plugin fails open, the second fails closed.
abbrev plugins : List Plugin
plugins =
    plugin_of "audit" 10 true (λ c. HookReturn.raised Exc.type_error)
    ∷ plugin_of "guard" 20 false (λ c. HookReturn.raised Exc.value_error)
    ∷ []

abbrev request : RequestContext
request = record { workflow_id = "sample"; inputs = []; execution_id = "exec-1" }

chain_raises : execute_chain (λ p. p.on_request_received) plugins request ≡ err Exc.value_error
unfolding execute_chain run_chain
chain_raises = refl

execute_chain-IsCulprit_example :
    IsCulprit (λ p. p.on_request_received) plugins request false Exc.value_error
execute_chain-IsCulprit_example =
    execute_chain-IsCulprit (λ p. p.on_request_received) plugins request Exc.value_error
      chain_raises

abbrev load : PluginDefinition → Result (Option Plugin)
load d = ok (some (plugin_of d.name d.priority true HookReturn.raw))

abbrev definitions : List PluginDefinition
definitions =
    record { name = "late"; enabled = true; priority = 90 }
    ∷ record { name = "early"; enabled = true; priority = 10 }
    ∷ record { name = "off"; enabled = false; priority = 1 }
    ∷ []

load_plugins-IsLoaded_example : IsLoaded load definitions
load_plugins-IsLoaded_example = load_plugins-IsLoaded load definitions
