-- ===== src/Drafts.antt =====
-- `DraftStore` of src/ploston_core/workflow/registry.py. A time is a number of ticks of the monotonic clock, whose readings are arguments: `now` is
-- the one of `_evict_expired`, `created_at` a later one. A random token is an argument too.
pub mod Lookups
pub mod Oldest
pub mod Valid
pub mod Room
pub mod Reachable
pub mod Stored
use ploston_core.Prelude.{
  ℕ, ◌-◌, String, Bool, true, false, Option, none, some, List, [], ◌∷◌, ◌==◌, ltb, leb, length,
  if◌then◌else◌,
}
use ploston_core.Prelude.Assoc.{Assoc, lookup, insert, erase}
use ploston_core.Prelude.Texts.{join}
use ploston_core.Validation.{ValidationResult}
use ploston_core.Errors.{Exc, value_error, Result, ok, err}

pub record DraftEntry : Type 0 where
  pub draft_id : String
  pub yaml_content : String
  pub name : String
  pub version : String
  pub validation : ValidationResult
  pub created_at : ℕ

pub record DraftStore : Type 0 where
  pub ttl : ℕ
  pub max_size : ℕ
  pub drafts : Assoc DraftEntry

-- `__init__`, whose `ttl_seconds` must be positive.
unfoldable pub init : ℕ → ℕ → Result DraftStore
init ttl_seconds max_size =
    if leb ttl_seconds 0
    then err value_error
    else ok (record { ttl = ttl_seconds; max_size = max_size; drafts = [] })

-- `now - entry.created_at > ttl`: a draft of the future has age 0 here and a negative age there, and
-- is not expired in either.
unfoldable pub expired : ℕ → ℕ → DraftEntry → Bool
expired ttl now e = ltb ttl (now - e.created_at)

unfoldable pub stale_ids : ℕ → ℕ → Assoc DraftEntry → List String
stale_ids ttl now [] = []
stale_ids ttl now ((k, e) ∷ d) =
    let rest = stale_ids ttl now d in if expired ttl now e then k ∷ rest else rest

unfoldable pub pop_all : List String → Assoc DraftEntry → Assoc DraftEntry
pop_all [] d = d
pop_all (k ∷ ks) d = pop_all ks (erase k d)

unfoldable pub evict_expired : ℕ → DraftStore → DraftStore
evict_expired now s = record s { drafts = pop_all (stale_ids s.ttl now s.drafts) s.drafts }

-- The entry with the smaller `created_at`, the one found before where they are equal.
unfoldable pub older : String × DraftEntry → String × DraftEntry → String × DraftEntry
older x best = if ltb x.1.created_at best.1.created_at then x else best

-- `min(items, key=created_at)` of the items `best ∷ d`: the first of the least ones.
unfoldable pub oldest_from : String × DraftEntry → Assoc DraftEntry → String × DraftEntry
oldest_from best [] = best
oldest_from best (x ∷ d) = oldest_from (older x best) d

unfoldable pub oldest : Assoc DraftEntry → Option (String × DraftEntry)
oldest [] = none
oldest (x ∷ d) = some (oldest_from x d)

-- `min` raises a `ValueError` where there is no draft.
unfoldable pub drop_oldest : DraftStore → Result DraftStore
drop_oldest s = elim (oldest s.drafts) [
  | none ↦ err value_error
  | some o ↦ ok (record s { drafts = erase o.0 s.drafts })
]

abbrev pub make_room : DraftStore → Result DraftStore
make_room s = if leb s.max_size (length s.drafts) then drop_oldest s else ok s

abbrev pub draft_id_of : String → String
draft_id_of token = join "" ("draft-" ∷ token ∷ [])

-- What `put` is called with, and the token and the time that it gets.
pub record Draft : Type 0 where
  pub yaml_content : String
  pub name : String
  pub version : String
  pub validation : ValidationResult
  pub token : String
  pub created_at : ℕ

abbrev pub entry_of : Draft → DraftEntry
entry_of d = record {
  draft_id = draft_id_of d.token;
  yaml_content = d.yaml_content;
  name = d.name;
  version = d.version;
  validation = d.validation;
  created_at = d.created_at;
}

abbrev pub store_draft : Draft → DraftStore → String × DraftStore
store_draft d s =
    (draft_id_of d.token, record s { drafts = insert (draft_id_of d.token) (entry_of d) s.drafts })

unfoldable pub put : ℕ → Draft → DraftStore → Result (String × DraftStore)
put now d s = elim (make_room (evict_expired now s)) [
  | err raised ↦ err raised
  | ok roomy ↦ ok (store_draft d roomy)
]

unfoldable pub get : ℕ → String → DraftStore → Option DraftEntry × DraftStore
get now id s = let t = evict_expired now s in (lookup id t.drafts, t)

unfoldable pub pop : ℕ → String → DraftStore → Option DraftEntry × DraftStore
pop now id s =
    let t = evict_expired now s in (lookup id t.drafts, record t { drafts = erase id t.drafts })

-- The entry is changed in place: the draft of the store is the one that is returned.
unfoldable pub replace_yaml : ℕ → String → String → DraftStore → Option DraftEntry × DraftStore
replace_yaml now id yaml_content s =
    let t = evict_expired now s in
    elim (lookup id t.drafts) [
      | none ↦ (none, t)
      | some e ↦
          let replaced = record e { yaml_content = yaml_content } in
          (some replaced, record t { drafts = insert id replaced t.drafts })
    ]

-- `__len__`
unfoldable pub count : ℕ → DraftStore → ℕ × DraftStore
count now s = let t = evict_expired now s in (length t.drafts, t)
