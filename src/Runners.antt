-- ===== src/Runners.antt =====
-- `RunnerRegistry` of src/ploston_core/runner_management/registry.py: runners, with an index by name
-- and one by the hash of their token. Generated ids and tokens, the hash and the clock come from
-- outside: they are arguments. A dict holds runners by reference and all changes of a runner go
-- through the registry, so that a runner is a value here and an update writes it back at its key.
pub mod Names
pub mod Events
pub mod Dispatch
pub mod Indexed
pub mod Consistent
pub mod History
pub mod Tokens
pub mod Tools
use ploston_core.Prelude.{
  ℕ, suc, ◌+◌, String, Bool, true, false, ◌&&◌, not, Option, none, some, List, [], ◌∷◌, length,
  select, truthy, or_else, is_some, if◌then◌else◌,
}
use ploston_core.Prelude.Assoc.{Assoc, lookup, insert, erase, values}
use ploston_core.Errors.{Exc, Result, ok, err}
use ploston_core.Value.{Value}

pub data RunnerStatus : Type 0 where
  connected disconnected : RunnerStatus

-- A tool is a name, or a dict with a name, if it has one, and a schema.
pub data Tool : Type 0 where
  text : String → Tool
  entry : Option String → Tool

-- The detail of an unavailable MCP.
pub record Detail : Type 0 where
  pub error : String
  pub log_path : String
  pub crash_snapshot : String

pub record Runner : Type 0 where
  pub id : String
  pub name : String
  pub created_at : ℕ
  pub last_seen : Option ℕ
  pub status : RunnerStatus
  pub available_tools : List Tool
  pub token_hash : String
  pub mcps : Assoc Value
  pub unavailable_mcps : Assoc Detail

unfoldable pub is_connected : Runner → Bool
is_connected r = elim r.status [ connected ↦ true | disconnected ↦ false ]

-- An `mcp/unavailable` event.
pub record Event : Type 0 where
  pub mcp_name : String
  pub runner_id : String
  pub detail : Detail

-- `gauges` are the two metrics, if a metrics instance is set; `notified` counts the calls of
-- `on_tools_changed`, where `listening` says that there is a callback and a running event loop.
-- The queues that `subscribe_mcp` returned are numbers below `next_queue`, with their contents.
pub record Registry : Type 0 where
  pub runners : Assoc Runner
  pub name_to_id : Assoc String
  pub token_to_id : Assoc String
  pub gauges : Option (ℕ × ℕ)
  pub listening : Bool
  pub notified : ℕ
  pub subscribers : Assoc (List ℕ)
  pub queues : ℕ → List Event
  pub next_queue : ℕ

-- The connected runners, and how many tools they have.
unfoldable pub count_runners : List Runner → ℕ × ℕ
count_runners [] = (0, 0)
count_runners (r ∷ rs) =
    let (runners, tools) = count_runners rs in
    if is_connected r then (runners + 1, tools + length r.available_tools) else (runners, tools)

-- `_update_metrics` and `_fire_tools_changed`
unfoldable pub tools_changed : Registry → Registry
tools_changed s = record s {
  gauges = if is_some s.gauges then some (count_runners (values s.runners)) else none;
  notified = if s.listening then s.notified + 1 else s.notified;
}

-- What `create` builds: the id, the token and the time are new.
unfoldable pub new_runner :
    (String → String) → String → String → String → Option (Assoc Value) → ℕ → Runner
new_runner hash_token runner_id token name mcps now = record {
  id = runner_id;
  name = name;
  created_at = now;
  last_seen = none;
  status = disconnected;
  available_tools = [];
  token_hash = hash_token token;
  mcps = or_else mcps [];
  unavailable_mcps = [];
}

unfoldable pub add_runner : Runner → Registry → Registry
add_runner r s = record s {
  runners = insert r.id r s.runners;
  name_to_id = insert r.name r.id s.name_to_id;
  token_to_id = insert r.token_hash r.id s.token_to_id;
}

-- `create`, with the id and the token that would be generated.
unfoldable pub create :
    (String → String)
    → String
    → String
    → String
    → Option (Assoc Value)
    → Option String
    → ℕ
    → Registry
    → Result (Runner × String) × Registry
create hash_token new_id new_token name mcps token now s =
    let given = or_else token new_token in
    let r = new_runner hash_token new_id given name mcps now in
    if is_some (lookup name s.name_to_id)
    then (err Exc.value_error, s)
    else (ok (r, given), add_runner r s)

unfoldable pub get : String → Registry → Option Runner
get runner_id s = lookup runner_id s.runners

-- The runner of an id out of an index; the empty id counts as none.
unfoldable pub get_indexed : Option String → Registry → Option Runner
get_indexed runner_id s = if truthy runner_id then lookup (or_else runner_id "") s.runners else none

unfoldable pub get_by_name : String → Registry → Option Runner
get_by_name name s = get_indexed (lookup name s.name_to_id) s

unfoldable pub get_by_token : (String → String) → String → Registry → Option Runner
get_by_token hash_token token s = get_indexed (lookup (hash_token token) s.token_to_id) s

unfoldable pub list_connected : Registry → List Runner
list_connected s = select is_connected (values s.runners)

-- One keyword argument of `update`. The names `id`, `name`, `created_at` and `token_hash`, and those
-- of no attribute, are passed over.
pub data Change : Type 0 where
  set_status : RunnerStatus → Change
  set_last_seen : ℕ → Change
  set_tools : List Tool → Change
  set_mcps : Assoc Value → Change
  set_unavailable : Assoc Detail → Change
  passed_over : String → Change

unfoldable pub set_field : Change → Runner → Runner
set_field (set_status v) r = record r { status = v }
set_field (set_last_seen v) r = record r { last_seen = some v }
set_field (set_tools v) r = record r { available_tools = v }
set_field (set_mcps v) r = record r { mcps = v }
set_field (set_unavailable v) r = record r { unavailable_mcps = v }
set_field (passed_over key) r = r

unfoldable pub set_fields : List Change → Runner → Runner
set_fields [] r = r
set_fields (c ∷ cs) r = set_fields cs (set_field c r)

-- The runner that is written back, and the registry.
unfoldable pub update : String → List Change → Registry → Option Runner × Registry
update runner_id changes s = elim (lookup runner_id s.runners) [
  | none ↦ (none, s)
  | some r ↦
      let changed = set_fields changes r in
      (some changed, record s { runners = insert runner_id changed s.runners })
]

-- An update, and the notice if the runner is there.
unfoldable pub update_noticed : String → List Change → Registry → Option Runner × Registry
update_noticed runner_id changes s =
    let (r, next) = update runner_id changes s in
    (r, if is_some r then tools_changed next else next)

unfoldable pub set_connected : String → ℕ → Registry → Option Runner × Registry
set_connected runner_id now =
    update_noticed runner_id (set_status connected ∷ set_last_seen now ∷ [])

unfoldable pub set_disconnected : String → Registry → Option Runner × Registry
set_disconnected runner_id = update_noticed runner_id (set_status disconnected ∷ [])

unfoldable pub update_heartbeat : String → ℕ → Registry → Option Runner × Registry
update_heartbeat runner_id now = update runner_id (set_last_seen now ∷ [])

unfoldable pub update_available_tools : String → List Tool → Registry → Option Runner × Registry
update_available_tools runner_id tools = update_noticed runner_id (set_tools tools ∷ [])

-- `del d[k]`, which raises KeyError at a missing key.
unfoldable pub remove_key : {V : Type 0} → String → Assoc V → Result (Assoc V)
remove_key k d = if is_some (lookup k d) then ok (erase k d) else err (Exc.other "KeyError")

-- The three `del` statements of `delete`; the ones before a KeyError have taken effect.
unfoldable pub delete_runner : String → Runner → Registry → Result Bool × Registry
delete_runner runner_id r s =
    let s₁ = record s { runners = erase runner_id s.runners } in
    elim (remove_key r.name s.name_to_id) [
      | Result.err e ↦ (err e, s₁)
      | Result.ok names ↦
          let s₂ = record s₁ { name_to_id = names } in
          elim (remove_key r.token_hash s.token_to_id) [
            | Result.err e ↦ (err e, s₂)
            | Result.ok tokens ↦ (ok true, record s₂ { token_to_id = tokens })
          ]
    ]

unfoldable pub delete : String → Registry → Result Bool × Registry
delete runner_id s = elim (lookup runner_id s.runners) [
  | none ↦ (ok false, s)
  | some r ↦ delete_runner runner_id r s
]

unfoldable pub delete_by_name : String → Registry → Result Bool × Registry
delete_by_name name s =
    let found = lookup name s.name_to_id in
    if truthy found then delete (or_else found "") s else (ok false, s)

-- The registry after `__init__`.
unfoldable pub empty_registry : Option (ℕ × ℕ) → Bool → Registry
empty_registry gauges listening = record {
  runners = [];
  name_to_id = [];
  token_to_id = [];
  gauges = gauges;
  listening = listening;
  notified = 0;
  subscribers = [];
  queues = λ q. [];
  next_queue = 0;
}
