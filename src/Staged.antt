-- ===== src/Staged.antt =====
-- `StagedConfig` of src/ploston_core/config/staged_config.py, with `deep_merge` of
-- src/ploston_core/config/loader.py. The tasks for Redis are kept in their order and run by
-- `run_task`; an event loop is taken to be running. JSON text stands as the value that it denotes.
-- The loader, the validation, the diff and the written file are left out.
pub mod Json
pub mod Merge
pub mod Paths
pub mod Settings
pub mod Recovery
use ploston_core.Prelude.{
  String, Bool, true, false, not, ◌&&◌, Option, none, some, List, [], ◌∷◌, ◌++◌, ◌==◌, is_some,
  or_else, if◌then◌else◌,
}
use ploston_core.Prelude.Texts.{split_at}
use ploston_core.Value.{Value, Items, nil, cons, Fields, end, field, get_field}

-- `d[k] = v`: an old key keeps its place, a new one comes last.
unfoldable pub put_field : String → Value → Fields → Fields
put_field k v end = field k v end
put_field k v (field j w fs) = if j == k then field j v fs else field j w (put_field k v fs)

-- `deep_merge`, and the value that it writes for a key of `override`: it merges two dicts, and takes
-- the new value otherwise.
unfoldable mutual
  pub deep_merge : Fields → Fields → Fields
  deep_merge base end = base
  deep_merge base (field k v fs) = deep_merge (put_field k (merged (get_field k base) v) base) fs

  pub merged : Option Value → Value → Value
  merged old Value.null = Value.null
  merged old (Value.bool b) = Value.bool b
  merged old (Value.int n) = Value.int n
  merged old (Value.str s) = Value.str s
  merged old (Value.list vs) = Value.list vs
  merged old (Value.object c fs) = Value.object c fs
  merged none (Value.dict fs) = Value.dict fs
  merged (some (Value.dict base)) (Value.dict fs) = Value.dict (deep_merge base fs)
  merged (some old) (Value.dict fs) = Value.dict fs

-- Whether `json.dumps` writes the value: it has no object of a class. A `dict` has no key twice.
unfoldable mutual
  pub is_json : Value → Bool
  is_json (Value.list vs) = is_json_items vs
  is_json (Value.dict fs) = is_json_fields fs
  is_json (Value.object c fs) = false
  is_json _ = true

  pub is_json_items : Items → Bool
  is_json_items nil = true
  is_json_items (cons v vs) = is_json v && is_json_items vs

  pub is_json_fields : Fields → Bool
  is_json_fields end = true
  is_json_fields (field k v fs) = not (is_some (get_field k fs)) && (is_json v && is_json_fields fs)

pub data Task : Type 0 where
  persist : Fields → Task
  clear_stored : Task

pub record StagedConfig : Type 0 where
  pub base : Fields
  pub changes : Fields
  pub target_path : Option String
  -- Whether there is a Redis store that is connected, and what it holds at `staged_config`.
  pub connected : Bool
  pub stored : Option Fields
  pub tasks : List Task

-- `__init__`, with the loaded configuration, if there is one.
abbrev pub init : Option Fields → Bool → Option Fields → StagedConfig
init loaded connected stored = record {
  base = or_else loaded end;
  changes = end;
  target_path = none;
  connected = connected;
  stored = stored;
  tasks = [];
}

-- The dict to go on in: what is no dict is overwritten with an empty one.
unfoldable pub child : Option Value → Fields
child (some (Value.dict fs)) = fs
child _ = end

-- The walk of `set` to the last key, which is never without a key.
unfoldable pub set_at : List String → Value → Fields → Fields
set_at [] v fs = fs
set_at (k ∷ []) v fs = put_field k v fs
set_at (k ∷ j ∷ ks) v fs = put_field k (Value.dict (set_at (j ∷ ks) v (child (get_field k fs)))) fs

abbrev pub start_task : Task → StagedConfig → StagedConfig
start_task task s = record s { tasks = s.tasks ++ task ∷ [] }

-- A value that is no JSON is logged and not persisted.
unfoldable pub persist_to_redis : StagedConfig → StagedConfig
persist_to_redis s =
    if s.connected && is_json_fields s.changes then start_task (persist s.changes) s else s

unfoldable pub set : String → Value → StagedConfig → StagedConfig
set path v s = persist_to_redis (record s { changes = set_at (split_at b'.' path) v s.changes })

-- The walk of `get`: `none` where a key is missing or something is no dict.
unfoldable pub get_at : List String → Value → Option Value
get_at [] v = some v
get_at (k ∷ ks) (Value.dict fs) = elim (get_field k fs) [ none ↦ none | some v ↦ get_at ks v ]
get_at (k ∷ ks) _ = none

abbrev pub get_merged : StagedConfig → Fields
get_merged s = deep_merge s.base s.changes

-- Without a path it is the whole configuration. `None` is returned for what is not found.
unfoldable pub get : Option String → StagedConfig → Value
get none s = Value.dict (get_merged s)
get (some path) s = or_else (get_at (split_at b'.' path) (Value.dict (get_merged s))) Value.null

unfoldable pub clear : StagedConfig → StagedConfig
clear s =
    let cleared = record s { changes = end } in
    if s.connected then start_task clear_stored cleared else cleared

abbrev pub has_changes : StagedConfig → Bool
has_changes s = elim s.changes [ end ↦ false | field k v fs ↦ true ]

abbrev pub set_target_path : String → StagedConfig → StagedConfig
set_target_path path s = record s { target_path = some path }

abbrev pub target_path_of : StagedConfig → String
target_path_of s = or_else s.target_path "ael-config.yaml"

-- `_async_persist_to_redis` and `_async_clear_from_redis`.
unfoldable pub run_task : Task → Option Fields → Option Fields
run_task (persist changes) stored = some changes
run_task clear_stored stored = none

-- The tasks run in the order in which they were started.
unfoldable pub run_all : List Task → Option Fields → Option Fields
run_all [] stored = stored
run_all (t ∷ ts) stored = run_all ts (run_task t stored)

abbrev pub settle : StagedConfig → StagedConfig
settle s = record s { stored = run_all s.tasks s.stored; tasks = [] }

abbrev pub restored_from : Option Fields → StagedConfig → Bool × StagedConfig
restored_from none s = (false, s)
restored_from (some changes) s = (true, record s { changes = changes })

unfoldable pub restore_from_redis : StagedConfig → Bool × StagedConfig
restore_from_redis s = if s.connected then restored_from s.stored s else (false, s)
