-- ===== src/Runners/Consistent.antt =====
-- The indexes of the `RunnerRegistry` agree with its runners, whatever operations it sees.
use ploston_core.Prelude.{String, ◌≡◌, refl, ◌∙◌, ◌≢◌, true, Option, none, some, List, [], ◌∷◌}
use ploston_core.Prelude.Assoc.{lookup, erase}
use ploston_core.Errors.{Result}
use ploston_core.Runners.{
  Runner, Registry, Change, add_runner, set_field, set_fields, update, remove_key, delete_runner,
}
use ploston_core.Runners.Indexed.{IsIndexed, insert-IsIndexed, replace-IsIndexed}

abbrev pub IsConsistent : Registry → Type 0
IsConsistent s = IsIndexed s.runners s.name_to_id s.token_to_id

set_field-keeps :
    (c : Change) (r : Runner)
    → ((set_field c r).id ≡ r.id)
      × ((set_field c r).name ≡ r.name)
      × ((set_field c r).token_hash ≡ r.token_hash)
unfolding set_field
set_field-keeps (Change.set_status v) r = (refl, refl, refl)
set_field-keeps (Change.set_last_seen v) r = (refl, refl, refl)
set_field-keeps (Change.set_tools v) r = (refl, refl, refl)
set_field-keeps (Change.set_mcps v) r = (refl, refl, refl)
set_field-keeps (Change.set_unavailable v) r = (refl, refl, refl)
set_field-keeps (Change.passed_over v) r = (refl, refl, refl)

set_fields-keeps :
    (cs : List Change) (r : Runner)
    → ((set_fields cs r).id ≡ r.id)
      × ((set_fields cs r).name ≡ r.name)
      × ((set_fields cs r).token_hash ≡ r.token_hash)
unfolding set_fields set_field
set_fields-keeps [] r = (refl, refl, refl)
set_fields-keeps (c ∷ cs) r =
    let (a, b, d) = set_fields-keeps cs (set_field c r) in
    let (x, y, z) = set_field-keeps c r in (a ∙ x, b ∙ y, d ∙ z)

-- The operations on a consistent registry.
module _ (s : Registry) (inv : IsConsistent s) where
  pub add_runner-IsConsistent :
      (r : Runner)
      → r.id ≢ ""
      → lookup r.id s.runners ≡ none
      → lookup r.name s.name_to_id ≡ none
      → lookup r.token_hash s.token_to_id ≡ none
      → IsConsistent (add_runner r s)
  unfolding add_runner
  add_runner-IsConsistent = insert-IsIndexed inv

  update_at-IsConsistent :
      (i : String) (cs : List Change) (o : Option Runner)
      → lookup i s.runners ≡ o
      → IsConsistent (update i cs s).1
  unfolding update
  update_at-IsConsistent i cs none e = rw (e, update) inv
  update_at-IsConsistent i cs (some r) e =
      let (a, b, c) = set_fields-keeps cs r in
      rw (e, update) (replace-IsIndexed inv i r (set_fields cs r) e a b c)

  pub update-IsConsistent : (i : String) (cs : List Change) → IsConsistent (update i cs s).1
  update-IsConsistent i cs = update_at-IsConsistent i cs (lookup i s.runners) refl

  -- The entries that `delete` removes are there.
  pub delete_runner-removes :
      (i : String) (r : Runner)
      → lookup i s.runners ≡ some r
      → delete_runner i r s ≡ (
        Result.ok true,
        record s {
          runners = erase i s.runners;
          name_to_id = erase r.name s.name_to_id;
          token_to_id = erase r.token_hash s.token_to_id;
        },
      )
  unfolding delete_runner remove_key
  delete_runner-removes i r e =
      let (a, b, c) = inv.own i r e in rw (delete_runner, remove_key, b, c) refl
