-- ===== src/Runners/History.antt =====
-- The `RunnerRegistry` over its life: the states that its operations reach.
use ploston_core.Prelude.{
  ℕ, String, ◌≡◌, refl, ◌≢◌, Bool, true, false, Option, none, some, List, [], arith, or_else,
  is_some, if◌then◌else◌,
}
use ploston_core.Prelude.Assoc.{Assoc, lookup}
use ploston_core.Prelude.Count.{occurs}
use ploston_core.Value.{Value}
use ploston_core.Runners.{
  Runner, Registry, Change, new_runner, add_runner, create, update, update_noticed, tools_changed,
  delete, delete_by_name, empty_registry,
}
use ploston_core.Runners.Events.{
  Unavailable, update_unavailable_mcps, mark_unavailable, map_of, subscribe_mcp, unsubscribe_mcp,
}
use ploston_core.Runners.Events.Bounds.{IsBounded, fan_out-IsBounded}
use ploston_core.Runners.Indexed.{replace-IsIndexed, erase-IsIndexed}
use ploston_core.Runners.Consistent.{
  IsConsistent, add_runner-IsConsistent, update-IsConsistent, delete_runner-removes,
}

-- The calls that change a registry. `noticed` stands for `set_connected`, `set_disconnected` and
-- `update_available_tools`, `updated` for `update` and `update_heartbeat`.
pub data Operation : Type 0 where
  created : (new_id new_token name : String) → Option (Assoc Value) → Option String → ℕ → Operation
  updated : String → List Change → Operation
  noticed : String → List Change → Operation
  deleted : String → Operation
  deleted_by_name : String → Operation
  marked : String → List Unavailable → Operation
  subscribed : String → Operation
  unsubscribed : String → ℕ → Operation

-- The invariant of a registry.
pub record IsSound (s : Registry) : Type 0 where
  pub consistent : IsConsistent s
  pub bounded : IsBounded s.queues

update_at-IsBounded :
    (i : String) (cs : List Change) (s : Registry) (o : Option Runner)
    → lookup i s.runners ≡ o
    → IsBounded s.queues
    → IsBounded (update i cs s).1.queues
unfolding update
update_at-IsBounded i cs s none e h = rw (update, e) h
update_at-IsBounded i cs s (some r) e h = rw (update, e) h

update-IsSound :
    (i : String) (cs : List Change) (s : Registry) → IsSound s → IsSound (update i cs s).1
update-IsSound i cs s inv = record {
  consistent = update-IsConsistent s inv.consistent i cs;
  bounded = update_at-IsBounded i cs s (lookup i s.runners) refl inv.bounded;
}

tools_changed-IsSound : (s : Registry) → IsSound s → IsSound (tools_changed s)
unfolding tools_changed
tools_changed-IsSound s inv = record { consistent = inv.consistent; bounded = inv.bounded }

noticed-IsSound : (b : Bool) (s : Registry) → IsSound s → IsSound (if b then tools_changed s else s)
noticed-IsSound true s inv = tools_changed-IsSound s inv
noticed-IsSound false s inv = inv

delete_at-IsSound :
    (i : String) (s : Registry) (o : Option Runner)
    → lookup i s.runners ≡ o
    → IsSound s
    → IsSound (delete i s).1
unfolding delete
delete_at-IsSound i s none e inv = rw (delete, e) inv
delete_at-IsSound i s (some r) e inv =
    rw (delete, e)
      (rw (delete_runner-removes s inv.consistent i r e)
        (record { consistent = erase-IsIndexed inv.consistent i r e; bounded = inv.bounded }))

delete-IsSound : (i : String) (s : Registry) → IsSound s → IsSound (delete i s).1
delete-IsSound i s inv = delete_at-IsSound i s (lookup i s.runners) refl inv

delete_by_name-IsSound :
    (name : String) (s : Registry) → IsSound s → IsSound (delete_by_name name s).1
unfolding delete_by_name
delete_by_name-IsSound name s inv =
    ground (arith, delete-IsSound (or_else (lookup name s.name_to_id) "") s inv)

mark_at-IsSound :
    (i : String) (us : List Unavailable) (s : Registry) (o : Option Runner)
    → lookup i s.runners ≡ o
    → IsSound s
    → IsSound (update_unavailable_mcps i us s)
unfolding update_unavailable_mcps mark_unavailable
mark_at-IsSound i us s none e inv = rw (update_unavailable_mcps, e) inv
mark_at-IsSound i us s (some r) e inv =
    rw (update_unavailable_mcps, e)
      (record {
        consistent =
            replace-IsIndexed inv.consistent i r (record r { unavailable_mcps = map_of us [] }) e
              refl refl refl;
        bounded = fan_out-IsBounded i (map_of us []) s.subscribers s.queues inv.bounded;
      })

subscribe-IsSound : (m : String) (s : Registry) → IsSound s → IsSound (subscribe_mcp m s).1
unfolding subscribe_mcp
subscribe-IsSound m s inv = record {
  consistent = inv.consistent;
  bounded = λ j. ground (arith, inv.bounded j);
}

unsubscribe_at-IsSound :
    (m : String) (q : ℕ) (s : Registry) (o : Option (List ℕ))
    → lookup m s.subscribers ≡ o
    → IsSound s
    → IsSound (unsubscribe_mcp m q s)
unfolding unsubscribe_mcp
unsubscribe_at-IsSound m q s none e inv = rw (unsubscribe_mcp, e) inv
unsubscribe_at-IsSound m q s (some subs) e inv =
    rw (unsubscribe_mcp, e) (record { consistent = inv.consistent; bounded = inv.bounded })

empty_registry-IsSound : (g : Option (ℕ × ℕ)) (l : Bool) → IsSound (empty_registry g l)
unfolding empty_registry lookup occurs
empty_registry-IsSound g l = record {
  consistent = record {
    distinct = λ k. omega arith;
    proper = refl;
    own = λ i r h. cc;
    named = λ n i h. cc;
    authorised = λ t i h. cc;
  };
  bounded = λ q. omega arith;
}

module _ (hash_token : String → String) where
  unfoldable pub run : Operation → Registry → Registry
  run (created i t name mcps token now) s = (create hash_token i t name mcps token now s).1
  run (updated i cs) s = (update i cs s).1
  run (noticed i cs) s = (update_noticed i cs s).1
  run (deleted i) s = (delete i s).1
  run (deleted_by_name name) s = (delete_by_name name s).1
  run (marked i us) s = update_unavailable_mcps i us s
  run (subscribed m) s = (subscribe_mcp m s).1
  run (unsubscribed m q) s = unsubscribe_mcp m q s

  -- What is asked of the caller: generated ids are new, and no two runners have the same token hash.
  unfoldable pub IsFresh : Operation → Registry → Type 0
  IsFresh (created i t name mcps token now) s =
      (i ≢ "")
      × (lookup i s.runners ≡ none)
      × (lookup (hash_token (or_else token t)) s.token_to_id ≡ none)
  IsFresh _ s = Unit

  pub data Reachable : Registry → Type 0 where
    start :
        (gauges : Option (ℕ × ℕ)) (listening : Bool) → Reachable (empty_registry gauges listening)
    after : {s : Registry} (o : Operation) → Reachable s → IsFresh o s → Reachable (run o s)

  create_at-IsSound :
      (i t name : String) (mcps : Option (Assoc Value)) (token : Option String) (now : ℕ)
      (s : Registry) (found : Option String)
      → lookup name s.name_to_id ≡ found
      → IsSound s
      → IsFresh (created i t name mcps token now) s
      → IsSound (create hash_token i t name mcps token now s).1
  unfolding create IsFresh
  create_at-IsSound i t name mcps token now s (some j) e inv fresh = rw (create, e) inv
  create_at-IsSound i t name mcps token now s none e inv (id, free, token_free) =
      let r = new_runner hash_token i (or_else token t) name mcps now in
      rw (create, e)
        (record {
          consistent =
              unfold new_runner in add_runner-IsConsistent s inv.consistent r id free e token_free;
          bounded = unfold add_runner in inv.bounded;
        })

  create-IsSound :
      (i t name : String) (mcps : Option (Assoc Value)) (token : Option String) (now : ℕ)
      (s : Registry)
      → IsSound s
      → IsFresh (created i t name mcps token now) s
      → IsSound (create hash_token i t name mcps token now s).1
  create-IsSound i t name mcps token now s inv fresh =
      create_at-IsSound i t name mcps token now s (lookup name s.name_to_id) refl inv fresh

  step-IsSound : (o : Operation) (s : Registry) → IsSound s → IsFresh o s → IsSound (run o s)
  unfolding run update_noticed
  step-IsSound (created i t name mcps token now) s inv fresh =
      create_at-IsSound i t name mcps token now s (lookup name s.name_to_id) refl inv fresh
  step-IsSound (updated i cs) s inv fresh = update-IsSound i cs s inv
  step-IsSound (noticed i cs) s inv fresh =
      noticed-IsSound (is_some (update i cs s).0) (update i cs s).1 (update-IsSound i cs s inv)
  step-IsSound (deleted i) s inv fresh = delete-IsSound i s inv
  step-IsSound (deleted_by_name name) s inv fresh = delete_by_name-IsSound name s inv
  step-IsSound (marked i us) s inv fresh = mark_at-IsSound i us s (lookup i s.runners) refl inv
  step-IsSound (subscribed m) s inv fresh = subscribe-IsSound m s inv
  step-IsSound (unsubscribed m q) s inv fresh =
      unsubscribe_at-IsSound m q s (lookup m s.subscribers) refl inv

-- In every state that a `RunnerRegistry` reaches from its start, where generated ids are new and no
-- two runners get the same token hash, the index by name and the index by token name exactly its
-- runners, each runner stands at its own id, and no event queue has more than 64 events.
pub Reachable-IsSound :
    (hash_token : String → String) (s : Registry) → Reachable hash_token s → IsSound s
Reachable-IsSound hash_token _ (start g l) = empty_registry-IsSound g l
Reachable-IsSound hash_token _ (after {s} o r fresh) =
    step-IsSound hash_token o s (Reachable-IsSound hash_token s r) fresh
