-- ===== src/Drafts/Reachable.antt =====
-- The states that a `DraftStore` reaches, whatever is called.
use ploston_core.Prelude.{
  ℕ, ◌≡◌, refl, String, List, [], ◌∷◌, leb, arith, Bool-cases, inl, inr, Option-cases,
}
use mathlib.Core.Path.{subst}
use ploston_core.Errors.{ok, err}
use ploston_core.Prelude.Assoc.{lookup}
use ploston_core.Prelude.Count.{occurs}
use ploston_core.Prelude.Dicts.{insert-Distinct}
use ploston_core.Drafts.{DraftStore, Draft, init, evict_expired, put, get, pop, replace_yaml, count}
use ploston_core.Drafts.Valid.{
  IsValid, length-insert_same, evict_expired-IsValid, erase-IsValid, store_draft-IsValid,
}
use ploston_core.Drafts.Room.{make_room-IsRoomy, make_room_none}

pub data Operation : Type 0 where
  putting : ℕ → Draft → Operation
  getting popping : ℕ → String → Operation
  replacing : ℕ → String → String → Operation
  counting : ℕ → Operation

-- The store after an operation. A `put` that raises has dropped the expired drafts before.
unfoldable pub after : Operation → DraftStore → DraftStore
after (putting now d) s = elim (put now d s) [ err raised ↦ evict_expired now s | ok (id, t) ↦ t ]
after (getting now id) s = (get now id s).1
after (popping now id) s = (pop now id s).1
after (replacing now id yaml_content) s = (replace_yaml now id yaml_content s).1
after (counting now) s = (count now s).1

unfoldable pub after_all : List Operation → DraftStore → DraftStore
after_all [] s = s
after_all (o ∷ os) s = after_all os (after o s)

put-IsValid : (now : ℕ) (d : Draft) (s : DraftStore) → IsValid s → IsValid (after (putting now d) s)
unfolding after put
put-IsValid now d s v =
    let w = evict_expired-IsValid now s v in
    elim (Bool-cases (leb (evict_expired now s).max_size 0)) [
      | inl none_fits ↦
          rw (after, put, make_room_none (evict_expired now s) w (ground (arith, none_fits))) w
      | inr some_fit ↦
          let (t, made, is) =
            make_room-IsRoomy (evict_expired now s) w (ground (arith, some_fit)) in
          rw (after, put, made) (store_draft-IsValid d t is.valid is.room)
    ]

pub replace_yaml-IsValid :
    (now : ℕ) (id yaml_content : String) (s : DraftStore)
    → IsValid s
    → IsValid (replace_yaml now id yaml_content s).1
unfolding replace_yaml
replace_yaml-IsValid now id y s v =
    let w = evict_expired-IsValid now s v in
    elim (Option-cases (lookup id (evict_expired now s).drafts)) [
      | inl missing ↦ rw (replace_yaml, missing) w
      | inr (e, found) ↦
          rw (replace_yaml, found)
            (record {
              distinct =
                  insert-Distinct id (record e { yaml_content = y }) (evict_expired now s).drafts
                    w.distinct;
              bounded = omega (
                arith,
                w.bounded,
                length-insert_same id (record e { yaml_content = y }) (evict_expired now s).drafts
                    (rw found refl),
              );
            })
    ]

after-IsValid : (o : Operation) (s : DraftStore) → IsValid s → IsValid (after o s)
unfolding after get pop count
after-IsValid (putting now d) s v = put-IsValid now d s v
after-IsValid (getting now id) s v = evict_expired-IsValid now s v
after-IsValid (popping now id) s v =
    erase-IsValid id (evict_expired now s) (evict_expired-IsValid now s v)
after-IsValid (replacing now id y) s v = replace_yaml-IsValid now id y s v
after-IsValid (counting now) s v = evict_expired-IsValid now s v

after_all-keeps : (os : List Operation) (s : DraftStore) → IsValid s → IsValid (after_all os s)
unfolding after_all
after_all-keeps [] s v = v
after_all-keeps (o ∷ os) s v = after_all-keeps os (after o s) (after-IsValid o s v)

init-IsValid : (ttl max_size : ℕ) (s : DraftStore) → init ttl max_size ≡ ok s → IsValid s
unfolding init
init-IsValid ttl max_size s h = elim (Bool-cases (leb ttl 0)) [
  | inl zero_ttl ↦ absurd (ground (arith, h, zero_ttl))
  | inr positive ↦
      let made : record { ttl = ttl; max_size = max_size; drafts = [] } ≡ s =
        ground (arith, h, positive) in
      subst IsValid made
        (record { distinct = λ k. unfold occurs in omega arith; bounded = omega arith })
]

-- A store made by `__init__` holds, after whatever operations at whatever times, at most `max_size`
-- drafts, with distinct ids.
pub after_all-IsValid :
    (ttl max_size : ℕ) (s : DraftStore) (os : List Operation)
    → init ttl max_size ≡ ok s
    → IsValid (after_all os s)
after_all-IsValid ttl max_size s os h = after_all-keeps os s (init-IsValid ttl max_size s h)
