-- ===== src/Drafts/Stored.antt =====
-- What a `put` stores and drops, and what `replace_yaml` changes, as later calls see it.
use ploston_core.Prelude.{
  ℕ, ◌≤◌, ◌<◌, ◌≡◌, refl, sym, ap, ◌∙◌, String, false, Option, none, some, ◌==◌, eq_iff, eq_refl,
  length, arith, if◌then◌else◌, Bool-cases, inl, inr, Option-cases, ◌⊎◌,
}
use mathlib.Core.Path.{subst}
use ploston_core.Errors.{ok}
use ploston_core.Prelude.Assoc.{lookup, keys, lookup-insert}
use ploston_core.Prelude.Count.{Distinct}
use ploston_core.Drafts.{
  DraftEntry, expired, DraftStore, Draft, evict_expired, draft_id_of, entry_of, store_draft, put,
  get, replace_yaml,
}
use ploston_core.Drafts.Lookups.{fresh, lookup-evict_expired}
use ploston_core.Drafts.Valid.{IsValid, evict_expired-IsValid, store_draft-IsValid}
use ploston_core.Drafts.Reachable.{replace_yaml-IsValid}
use ploston_core.Drafts.Room.{IsRoomy, make_room-IsRoomy}

pub record IsStored (now : ℕ) (d : Draft) (s : DraftStore) : Type 0 where
  pub after : DraftStore
  pub stored : put now d s ≡ ok (draft_id_of d.token, after)
  pub found :
      (later : ℕ)
      → (get later (draft_id_of d.token) after).0
        ≡ (if expired s.ttl later (entry_of d) then none else some (entry_of d))
  pub kept :
      (k : String) (e : DraftEntry)
      → (draft_id_of d.token == k) ≡ false
      → lookup k s.drafts ≡ some e
      → expired s.ttl now e ≡ false
      → (lookup k after.drafts ≡ some e)
        ⊎ (length (evict_expired now s).drafts ≡ s.max_size)
          × ((j : String) (f : DraftEntry)
              → lookup j s.drafts ≡ some f
              → expired s.ttl now f ≡ false
              → e.created_at ≤ f.created_at)

-- What `get` finds in a valid store.
pub get-fresh :
    (later : ℕ) (k : String) (s : DraftStore)
    → Distinct (keys s.drafts)
    → (get later k s).0 ≡ fresh s.ttl later (lookup k s.drafts)
unfolding get
get-fresh later k s h = lookup-evict_expired later k s h

lookup-store_draft :
    (d : Draft) (t : DraftStore)
    → lookup (draft_id_of d.token) (store_draft d t).1.drafts ≡ some (entry_of d)
lookup-store_draft d t =
    lookup-insert (draft_id_of d.token) (draft_id_of d.token) (entry_of d) t.drafts
    ∙ rw (eq_refl (draft_id_of d.token)) refl

found_in :
    (later : ℕ) (d : Draft) (t : DraftStore)
    → IsValid t
    → length t.drafts < t.max_size
    → (get later (draft_id_of d.token) (store_draft d t).1).0
      ≡ (if expired t.ttl later (entry_of d) then none else some (entry_of d))
unfolding fresh
found_in later d t v room =
    get-fresh later (draft_id_of d.token) (store_draft d t).1
      (store_draft-IsValid d t v room).distinct
    ∙ ap (fresh t.ttl later) (lookup-store_draft d t)

fresh_kept :
    (now : ℕ) (k : String) (e : DraftEntry) (s : DraftStore)
    → IsValid s
    → lookup k s.drafts ≡ some e
    → expired s.ttl now e ≡ false
    → lookup k (evict_expired now s).drafts ≡ some e
unfolding fresh
fresh_kept now k e s v at young = lookup-evict_expired now k s v.distinct ∙ rw (at, young) refl

kept_in :
    (now : ℕ) (d : Draft) (s t : DraftStore) (k : String) (e : DraftEntry)
    → IsValid s
    → IsRoomy (evict_expired now s) t
    → (draft_id_of d.token == k) ≡ false
    → lookup k s.drafts ≡ some e
    → expired s.ttl now e ≡ false
    → (lookup k (store_draft d t).1.drafts ≡ some e)
      ⊎ (length (evict_expired now s).drafts ≡ s.max_size)
        × ((j : String) (f : DraftEntry)
            → lookup j s.drafts ≡ some f
            → expired s.ttl now f ≡ false
            → e.created_at ≤ f.created_at)
unfolding evict_expired
kept_in now d s t k e v is other at young = elim (is.kept k e (fresh_kept now k e s v at young)) [
  | inl stays ↦ inl (lookup-insert (draft_id_of d.token) k (entry_of d) t.drafts ∙ rw other stays)
  | inr (full, least) ↦
      inr (full, λ j f there fresh_f. least j f (fresh_kept now j f s v there fresh_f))
]

-- In a valid store of a positive size, a `put` succeeds. Whenever the new draft is asked for, it is
-- found as it was given until its age is above the time to live, and not afterwards. Each other
-- draft that is not expired stays, unless the store was full of them and none of them was older.
pub put-IsStored :
    (now : ℕ) (d : Draft) (s : DraftStore) → IsValid s → 0 < s.max_size → IsStored now d s
unfolding put evict_expired
put-IsStored now d s v positive =
    let (t, made, is) =
      make_room-IsRoomy (evict_expired now s) (evict_expired-IsValid now s v) positive in
    record {
      after = (store_draft d t).1;
      stored = rw (put, made) refl;
      found = λ later.
          subst
            (λ ttl.
              (get later (draft_id_of d.token) (store_draft d t).1).0
              ≡ (if expired ttl later (entry_of d) then none else some (entry_of d)))
            is.same_ttl (found_in later d t is.valid is.room);
      kept = λ k e. kept_in now d s t k e v is;
    }

-- The draft with other YAML.
abbrev pub with_yaml : String → Option DraftEntry → Option DraftEntry
with_yaml y none = none
with_yaml y (some e) = some (record e { yaml_content = y })

fresh-fresh :
    (ttl now later : ℕ) (o : Option DraftEntry)
    → now ≤ later
    → fresh ttl later (fresh ttl now o) ≡ fresh ttl later o
unfolding fresh expired
fresh-fresh ttl now later none le = refl
fresh-fresh ttl now later (some e) le = ground arith

fresh-with_yaml :
    (ttl later : ℕ) (y : String) (o : Option DraftEntry)
    → fresh ttl later (with_yaml y o) ≡ with_yaml y (fresh ttl later o)
unfolding fresh expired
fresh-with_yaml ttl later y none = refl
fresh-with_yaml ttl later y (some e) = ground arith

lookup-replace_yaml :
    (now : ℕ) (id k y : String) (s : DraftStore)
    → lookup k (replace_yaml now id y s).1.drafts ≡ (
        if id == k
        then with_yaml y (lookup k (evict_expired now s).drafts)
        else lookup k (evict_expired now s).drafts)
unfolding replace_yaml
lookup-replace_yaml now id k y s =
    let t = evict_expired now s in
    elim (Option-cases (lookup id t.drafts)) [
      | inl missing ↦ rw (replace_yaml, missing) (ground (arith, eq_iff id k, missing))
      | inr (e, found) ↦
          rw (replace_yaml, found)
            (lookup-insert id k (record e { yaml_content = y }) t.drafts
              ∙ ground (arith, eq_iff id k, found))
    ]

replace_yaml-ttl :
    (now : ℕ) (id y : String) (s : DraftStore) → (replace_yaml now id y s).1.ttl ≡ s.ttl
unfolding replace_yaml evict_expired
replace_yaml-ttl now id y s = elim (Option-cases (lookup id (evict_expired now s).drafts)) [
  | inl missing ↦ rw (replace_yaml, missing) refl
  | inr (e, found) ↦ rw (replace_yaml, found) refl
]

-- After a `replace_yaml`, from then on every id finds what it would have found without it, at its
-- own id with the new YAML: the draft is not kept any longer.
pub replace_yaml-get :
    (now later : ℕ) (id k y : String) (s : DraftStore)
    → IsValid s
    → now ≤ later
    → (get later k (replace_yaml now id y s).1).0
      ≡ (if id == k then with_yaml y (get later k s).0 else (get later k s).0)
replace_yaml-get now later id k y s v le =
    let t = (replace_yaml now id y s).1 in
    let before = lookup-evict_expired now k s v.distinct in
    get-fresh later k t (replace_yaml-IsValid now id y s v).distinct
    ∙ ap (λ ttl. fresh ttl later (lookup k t.drafts)) (replace_yaml-ttl now id y s)
    ∙ ap (fresh s.ttl later) (lookup-replace_yaml now id k y s)
    ∙ elim (Bool-cases (id == k)) [
      | inr other ↦ rw other (
          ap (fresh s.ttl later) before
          ∙ fresh-fresh s.ttl now later (lookup k s.drafts) le
          ∙ sym (get-fresh later k s v.distinct))
      | inl same ↦ rw same (
          fresh-with_yaml s.ttl later y (lookup k (evict_expired now s).drafts)
          ∙ ap (with_yaml y) (
              ap (fresh s.ttl later) before
              ∙ fresh-fresh s.ttl now later (lookup k s.drafts) le
              ∙ sym (get-fresh later k s v.distinct)))
    ]
