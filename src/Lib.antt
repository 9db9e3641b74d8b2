-- ===== src/Lib.antt =====
-- The core of Ploston: workflows of tool and code steps, run by an engine that calls tools through
-- an invoker, renders templates and passes hooks to plugins. (Paths are from the repository's root.)
--
-- Types, Errors, Value: the enumerations of src/ploston_core/types, the exceptions of
--   src/ploston_core/errors by their codes, and Python's dynamic values (`dict` keeps its order).
-- Validation: the results of validations, src/ploston_core/types/validation.py.
-- Workflow: the dataclasses of src/ploston_core/workflow/types.py and `get_step`.
--   Workflow/Order is `get_execution_order`, Kahn's algorithm: `relax` is the inner loop, `kahn` the
--   outer one. Its fuel is one more than the number of steps, which Termination shows to be enough.
--   Lowered, Relaxed, Invariant, Topology, Complete and Found are its proofs.
-- Validator: `WorkflowValidator` of src/ploston_core/workflow/validator.py. Checks has the checks of
--   `validate` in their order. WellFormed, Steps and Sound are proofs.
-- Registrations: `WorkflowRegistry` of src/ploston_core/workflow/registry.py, with the operations on YAML
--   in Registrations/Yaml and `initialize` in Registrations/Starting. Accepted and Removed are proofs.
-- Plugins: src/ploston_core/plugins, the contexts of the hooks, `_execute_chain` (`run_chain`,
--   `execute_chain`) and `load_plugins`. Chain and Loading are proofs.
-- Engine: src/ploston_core/engine. Step is `_execute_step_once`, Retry is `_execute_step`, Outputs
--   the inputs and outputs, Run is `_execute_steps`, Execute is `execute_workflow`. What the engine
--   calls is a record `Backend`: the invoker, the sandbox, the clock. It renders by Template, through
--   Engine/Rendering; Engine/Resolve is `_resolve_invoke_name`, Engine/Normalize is
--   `normalize_mcp_response`. A call takes the state of the outside and returns it, with a result or
--   an exception. Attempts, Hooks, Recorded, Calls, Safety, Planned and Totals are proofs.
-- Runners: `RunnerRegistry` of src/ploston_core/runner_management/registry.py, with tool names and
--   routing in Runners/Names, and unavailable MCPs and their subscribers in Runners/Events.
--   Runners/History has its reachable states. Indexed, Consistent, Tokens and Tools are proofs.
-- Tools: `ToolRegistry` of src/ploston_core/registry/registry.py, with the refreshes in
--   Tools/Refresh and the filters of `list_tools` in Tools/Listed. Gathered and Status are proofs.
-- Invoker: `ToolInvoker` of src/ploston_core/invoker/invoker.py, which routes a call to a runner, an
--   MCP server or the sandbox. It asks the registry of Tools. Gate, Returned, Native and Names are
--   proofs.
-- Frontend: `tools/call` of the MCP server, src/ploston_core/mcp_frontend/server.py, which hands a call to
--   the config tools, a runner, the management tools, the tool invoker or the engine. Runners/Dispatch is
--   the tool invoker's way to a runner. Gated and Reached are proofs.
-- Modes: `ModeManager` of src/ploston_core/config/mode_manager.py. Notices is a proof.
-- Drafts: `DraftStore` of src/ploston_core/workflow/registry.py. Reachable has the states that its
--   operations lead to. Lookups, Oldest, Valid, Room and Stored are proofs.
-- Auth: src/ploston_core/auth. Access is the tool filter, Store is `PrincipalStore`, Middleware is
--   `ProAuthMiddleware.dispatch`. Granted and Permitted are proofs.
-- RateLimits: `RateLimiter` of src/ploston_core/auth/rate_limiter.py with its Lua script. Script, Calls,
--   Requests, Spending, Budget and Waits are proofs, over sequences of calls.
-- Staged: `StagedConfig` of src/ploston_core/config/staged_config.py and `deep_merge` of
--   src/ploston_core/config/loader.py. Json, Merge, Paths, Settings and Recovery are proofs.
-- Template: src/ploston_core/template. Parser finds the templates of a text, Variables and Filters
--   evaluate one, Render is `TemplateEngine`. Pieces has texts by their parts. Agreement, Replaced,
--   Braces, Found and Mixed are proofs.
-- Telemetry: `MemoryTelemetryStore` of src/ploston_core/telemetry/store/memory.py, with the
--   statistics in Telemetry/Stats. Recent and Pages are proofs.
-- Prelude: lists, dicts (`Assoc`), integers and counting over the native numbers.
-- Tests: sample workflows, and the theorems applied to them.
--
-- Not modelled: times and durations, log lines and telemetry, the error metadata of failed steps
-- (what a cascade skip records is), and the import of plugin code, which is a parameter. Of Python, the
-- texts of values and of lists in messages, JSON and the numbers in texts are parameters, as are YAML,
-- the hashes of keys, Redis, the servers and the sandbox. Left out whole: the transports of the
-- servers and their clients, `tools/list` of the frontend, the management tools, the learned schemas, the chain detector and the native tools.
pub mod Prelude
pub mod Types
pub mod Value
pub mod Errors
pub mod Frontend
pub mod Validation
pub mod Workflow
pub mod Plugins
pub mod Engine
pub mod Runners
pub mod Tools
pub mod Invoker
pub mod Staged
pub mod Template
pub mod Telemetry
pub mod Modes
pub mod Drafts
pub mod RateLimits
pub mod Auth
pub mod Validator
pub mod Registrations
mod Tests
