-- ===== src/Tests/Drafts.antt =====
-- A full draft store, with one draft that expires before the other.
use ploston_core.Prelude.{ℕ, ◌≡◌, refl, true, false, none, [], ◌∷◌, arith}
use ploston_core.Prelude.Assoc.{lookup, insert, erase}
use ploston_core.Prelude.Count.{unique-Distinct}
use ploston_core.Prelude.{unique, mem}
use ploston_core.Prelude.Texts.{join}
use ploston_core.Validation.{ValidationIssue, ValidationResult, post_init}
use ploston_core.Drafts.{
  DraftEntry, DraftStore, Draft, init, expired, stale_ids, pop_all, evict_expired, older,
  oldest_from, oldest, drop_oldest, put, get,
}
use ploston_core.Drafts.Valid.{IsValid}
use ploston_core.Drafts.Reachable.{putting, popping, after, after_all, after_all-IsValid}
use ploston_core.Drafts.Stored.{IsStored, put-IsStored}

abbrev issue : ValidationIssue
issue = record { path = "steps[0].tool"; message = "unknown"; severity = "error"; line = none }

abbrev refused : ValidationResult
refused = post_init (record { valid = true; errors = issue ∷ []; warnings = [] })

abbrev stored_at : ℕ → DraftEntry
stored_at time = record {
  draft_id = "draft-a";
  yaml_content = "steps: []";
  name = "flow";
  version = "1.0";
  validation = refused;
  created_at = time;
}

abbrev full_store : DraftStore
full_store = record {
  ttl = 100;
  max_size = 2;
  drafts = ("draft-a", stored_at 40) ∷ ("draft-b", stored_at 30) ∷ [];
}

abbrev draft : Draft
draft = record {
  yaml_content = "steps: [x]";
  name = "flow";
  version = "1.1";
  validation = refused;
  token = "c";
  created_at = 50;
}

full_store-IsValid : IsValid full_store
unfolding unique mem
full_store-IsValid = record {
  distinct = unique-Distinct ("draft-a" ∷ "draft-b" ∷ []) refl;
  bounded = omega arith;
}

refused_is : refused.valid ≡ false
unfolding post_init
refused_is = refl

-- At time 50 the store is full and the older draft goes; at time 135 it has expired.
oldest_goes : (get 50 "draft-b" (after_all (putting 50 draft ∷ []) full_store)).0 ≡ none
unfolding after_all after get put evict_expired stale_ids pop_all expired erase insert lookup
    drop_oldest oldest oldest_from older join
oldest_goes = refl

expired_goes : (get 135 "draft-b" full_store).0 ≡ none
unfolding get evict_expired stale_ids pop_all expired erase lookup
expired_goes = refl

put-IsStored_example : IsStored 50 draft full_store
put-IsStored_example = put-IsStored 50 draft full_store full_store-IsValid (omega arith)

abbrev empty_store : DraftStore
empty_store = record { ttl = 100; max_size = 1; drafts = [] }

after_all-IsValid_example :
    IsValid
      (after_all (putting 50 draft ∷ putting 60 draft ∷ popping 70 "draft-c" ∷ []) empty_store)
unfolding init
after_all-IsValid_example =
    after_all-IsValid 100 1 empty_store
      (putting 50 draft ∷ putting 60 draft ∷ popping 70 "draft-c" ∷ []) refl
