-- ===== src/Staged/Recovery.antt =====
-- A restart: what a new `StagedConfig` restores from Redis.
use ploston_core.Prelude.{
  ◌≡◌, refl, ◌∙◌, String, Bool, true, ◌&&◌, Option, none, some, List, [], ◌∷◌, ◌++◌, or_else, arith,
}
use ploston_core.Prelude.Texts.{split_at}
use ploston_core.Value.{Value, Fields, end}
use ploston_core.Staged.{
  is_json, is_json_fields, Task, persist, clear_stored, StagedConfig, init, set_at,
  persist_to_redis, set, clear, run_task, run_all, settle, restored_from, restore_from_redis,
}
use ploston_core.Staged.Json.{set_at-is_json}

pub data Change : Type 0 where
  set_to : String → Value → Change
  discard : Change

abbrev pub change : Change → StagedConfig → StagedConfig
change (set_to path v) s = set path v s
change discard s = clear s

unfoldable pub change_all : List Change → StagedConfig → StagedConfig
change_all [] s = s
change_all (c ∷ cs) s = change_all cs (change c s)

abbrev pub writes_json : Change → Bool
writes_json (set_to path v) = is_json v
writes_json discard = true

unfoldable pub all_json : List Change → Bool
all_json [] = true
all_json (c ∷ cs) = writes_json c && all_json cs

run_all-append :
    (ts : List Task) (t : Task) (stored : Option Fields)
    → run_all (ts ++ t ∷ []) stored ≡ run_task t (run_all ts stored)
unfolding run_all
run_all-append [] t stored = refl
run_all-append (u ∷ ts) t stored = run_all-append ts t (run_task u stored)

-- The tasks leave in Redis what is staged.
record IsKept (s : StagedConfig) : Type 0 where
  linked : s.connected ≡ true
  json : is_json_fields s.changes ≡ true
  kept : or_else (run_all s.tasks s.stored) end ≡ s.changes

change-IsKept :
    (c : Change) (s : StagedConfig) → writes_json c ≡ true → IsKept s → IsKept (change c s)
change-IsKept (set_to path v) s hv k =
    let json = set_at-is_json (split_at b'.' path) v s.changes hv k.json in
    let changes = set_at (split_at b'.' path) v s.changes in
    unfold set persist_to_redis in
    rw (k.linked, json)
      (record {
        linked = refl;
        json = json;
        kept = rw (run_all-append s.tasks (persist changes) s.stored) (unfold run_task in refl);
      })
change-IsKept discard s hv k =
    unfold clear in
    rw k.linked (record {
      linked = refl;
      json = unfold is_json_fields in refl;
      kept = rw (run_all-append s.tasks clear_stored s.stored) (unfold run_task in refl);
    })

change_all-IsKept :
    (cs : List Change) (s : StagedConfig) → all_json cs ≡ true → IsKept s → IsKept (change_all cs s)
unfolding change_all all_json
change_all-IsKept [] s h k = k
change_all-IsKept (c ∷ cs) s h k =
    let (now, later) = both (writes_json c) (all_json cs) h in
    change_all-IsKept cs (change c s) later (change-IsKept c s now k)
  where
    both : (a b : Bool) → (a && b) ≡ true → (a ≡ true) × (b ≡ true)
    both a b h = ground arith

-- After any sequence of `set`s of JSON values and `clear`s from the start, with a connected Redis
-- that held nothing and whose tasks have run in their order: a new `StagedConfig` on that Redis has
-- exactly the staged changes after `restore_from_redis`, whatever configuration it loads.
pub restore_from_redis-change_all :
    (cs : List Change) (loaded reloaded : Option Fields)
    → all_json cs ≡ true
    → (restore_from_redis
        (init reloaded true (settle (change_all cs (init loaded true none))).stored)).1.changes
      ≡ (change_all cs (init loaded true none)).changes
unfolding restore_from_redis
restore_from_redis-change_all cs loaded reloaded h =
    let s = change_all cs (init loaded true none) in
    let k = change_all-IsKept cs (init loaded true none) h (record {
      linked = refl;
      json = unfold is_json_fields in refl;
      kept = unfold run_all in refl;
    }) in
    restored (run_all s.tasks s.stored) ∙ k.kept
  where
    restored :
        (stored : Option Fields)
        → (restored_from stored (init reloaded true stored)).1.changes ≡ or_else stored end
    restored none = refl
    restored (some changes) = refl
