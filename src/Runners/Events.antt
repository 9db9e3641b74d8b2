-- ===== src/Runners/Events.antt =====
-- Unavailable MCPs and their subscribers in src/ploston_core/runner_management/registry.py. A queue
-- is an `asyncio.Queue` with 64 places; the bridges that take events out of it are not modelled.
pub mod Bounds
use text.Mathlib.Text.{starts_with}
use Prim.Native.String
use ploston_core.Prelude.{
  ℕ, suc, ◌+◌, String, Bool, true, false, Option, none, some, List, [], ◌∷◌, ◌++◌, ◌==◌, ltb,
  nat_eq, length, or_else, if◌then◌else◌,
}
use ploston_core.Prelude.Assoc.{Assoc, lookup, insert, values}
use ploston_core.Prelude.Dicts.{any}
use ploston_core.Runners.{Detail, Event, Tool, Runner, is_connected, Registry}
use ploston_core.Runners.Names.{get_tool_name}

-- An entry of the list that a runner reports: a dict whose keys may be missing.
pub record Unavailable : Type 0 where
  pub name : Option String
  pub error : Option String
  pub log_path : Option String
  pub crash_snapshot : Option String

abbrev pub detail_of : Unavailable → Detail
detail_of u = record {
  error = or_else u.error "unavailable";
  log_path = or_else u.log_path "";
  crash_snapshot = or_else u.crash_snapshot "";
}

-- The loop that builds `new_map`.
unfoldable pub map_of : List Unavailable → Assoc Detail → Assoc Detail
map_of [] details = details
map_of (u ∷ us) details = map_of us (insert (or_else u.name "") (detail_of u) details)

-- `queue.put_nowait(event)`; an event for a full queue is dropped.
unfoldable pub put_nowait : ℕ → Event → (ℕ → List Event) → ℕ → List Event
put_nowait q e queues j =
    if nat_eq j q
    then (if ltb (length (queues q)) 64 then queues q ++ e ∷ [] else queues q)
    else queues j

unfoldable pub put_all : List ℕ → Event → (ℕ → List Event) → ℕ → List Event
put_all [] e queues = queues
put_all (q ∷ qs) e queues = put_all qs e (put_nowait q e queues)

-- The loops over `new_map` and the subscribers.
unfoldable pub fan_out : String → Assoc Detail → Assoc (List ℕ) → (ℕ → List Event) → ℕ → List Event
fan_out runner_id [] subscribers queues = queues
fan_out runner_id ((mcp_name, detail) ∷ details) subscribers queues =
    fan_out runner_id details subscribers (
      put_all (or_else (lookup mcp_name subscribers) [])
        (record { mcp_name = mcp_name; runner_id = runner_id; detail = detail }) queues)

unfoldable pub mark_unavailable : String → Runner → Assoc Detail → Registry → Registry
mark_unavailable runner_id r new_map s = record s {
  runners = insert runner_id (record r { unavailable_mcps = new_map }) s.runners;
  queues = fan_out runner_id new_map s.subscribers s.queues;
}

unfoldable pub update_unavailable_mcps : String → List Unavailable → Registry → Registry
update_unavailable_mcps runner_id unavailable s = elim (lookup runner_id s.runners) [
  | none ↦ s
  | some r ↦ mark_unavailable runner_id r (map_of unavailable []) s
]

-- The new, empty queue, and the registry.
unfoldable pub subscribe_mcp : String → Registry → ℕ × Registry
subscribe_mcp mcp_name s = (
  s.next_queue,
  record s {
    subscribers =
        insert mcp_name (or_else (lookup mcp_name s.subscribers) [] ++ s.next_queue ∷ [])
          s.subscribers;
    queues = λ j. if nat_eq j s.next_queue then [] else s.queues j;
    next_queue = s.next_queue + 1;
  },
)

-- `subs.remove(queue)`
unfoldable pub remove_queue : ℕ → List ℕ → List ℕ
remove_queue q [] = []
remove_queue q (j ∷ js) = if nat_eq j q then js else j ∷ remove_queue q js

unfoldable pub unsubscribe_mcp : String → ℕ → Registry → Registry
unsubscribe_mcp mcp_name q s = elim (lookup mcp_name s.subscribers) [
  | none ↦ s
  | some subs ↦ record s { subscribers = insert mcp_name (remove_queue q subs) s.subscribers }
]

pub data McpStatus : Type 0 where
  unavailable : (runner_id runner_name : String) → Detail → McpStatus
  available : (runner_id runner_name : String) → McpStatus

-- One round of the loop of `get_mcp_status`, where `rest` is the rest of it.
unfoldable pub status_on : String → Runner → Option McpStatus → Option McpStatus
status_on mcp_name r rest = elim (is_connected r) [
  | false ↦ rest
  | true ↦ elim (lookup mcp_name r.unavailable_mcps) [
    | some detail ↦ some (unavailable r.id r.name detail)
    | none ↦
        if any (λ t. starts_with (get_tool_name t) (String.◌++◌ mcp_name "__")) r.available_tools
        then some (available r.id r.name)
        else rest
  ]
]

unfoldable pub find_status : String → List Runner → Option McpStatus
find_status mcp_name [] = none
find_status mcp_name (r ∷ rs) = status_on mcp_name r (find_status mcp_name rs)

unfoldable pub get_mcp_status : String → Registry → Option McpStatus
get_mcp_status mcp_name s = find_status mcp_name (values s.runners)
