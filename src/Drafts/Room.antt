-- ===== src/Drafts/Room.antt =====
-- `put` drops the oldest draft where the store is full, and no other.
use ploston_core.Prelude.{
  ◌≤◌, ◌<◌, ◌≡◌, refl, ◌∙◌, String, some, ◌==◌, eq_iff, leb, length, arith, Bool-cases, inl, inr,
  ◌⊎◌,
}
use mathlib.Core.Path.{subst}
use ploston_core.Errors.{value_error, ok, err}
use ploston_core.Prelude.Assoc.{lookup, erase, lookup-erase}
use ploston_core.Drafts.{DraftEntry, DraftStore, drop_oldest, make_room}
use ploston_core.Drafts.Oldest.{drop_oldest-IsOldest, IsOldest, oldest-none}
use ploston_core.Drafts.Valid.{IsValid, length-erase_lt, erase-IsValid}

-- What making room does to a store, and to each of its drafts.
pub record IsRoomy (s t : DraftStore) : Type 0 where
  pub valid : IsValid t
  pub room : length t.drafts < t.max_size
  pub same_ttl : t.ttl ≡ s.ttl
  pub kept :
      (k : String) (e : DraftEntry)
      → lookup k s.drafts ≡ some e
      → (lookup k t.drafts ≡ some e)
        ⊎ (length s.drafts ≡ s.max_size)
          × ((j : String) (f : DraftEntry)
              → lookup j s.drafts ≡ some f
              → e.created_at ≤ f.created_at)

erase-IsRoomy :
    (o : String × DraftEntry) (s : DraftStore)
    → IsValid s
    → s.max_size ≤ length s.drafts
    → IsOldest o s.drafts
    → IsRoomy s (record s { drafts = erase o.0 s.drafts })
erase-IsRoomy o s v full is = record {
  valid = erase-IsValid o.0 s v;
  room = omega (arith, v.bounded, full, length-erase_lt o.0 s.drafts (rw is.here refl));
  same_ttl = refl;
  kept = λ k e at. elim (Bool-cases (o.0 == k)) [
    | inr other ↦ inl (lookup-erase o.0 k s.drafts ∙ rw other at)
    | inl same ↦
        let equal : o.1 ≡ e = ground (arith, is.here, eq_iff o.0 k) in
        inr (
          omega (arith, v.bounded),
          subst
              (λ g.
                (j : String) (f : DraftEntry)
                → lookup j s.drafts ≡ some f
                → g.created_at ≤ f.created_at)
              equal is.least,
        )
  ];
}

pub make_room-IsRoomy :
    (s : DraftStore)
    → IsValid s
    → 0 < s.max_size
    → (t : DraftStore) × (make_room s ≡ ok t) × IsRoomy s t
make_room-IsRoomy s v positive = elim (Bool-cases (leb s.max_size (length s.drafts))) [
  | inr less ↦ (
    s,
    rw less refl,
    record { valid = v; room = ground arith; same_ttl = refl; kept = λ k e at. inl at },
  )
  | inl full ↦
      let (o, is, dropped) = drop_oldest-IsOldest s v.distinct (ground arith) in
      (
        record s { drafts = erase o.0 s.drafts },
        rw full dropped,
        erase-IsRoomy o s v (ground arith) is,
      )
]

-- A store of size 0 has no draft to drop.
pub make_room_none : (s : DraftStore) → IsValid s → s.max_size ≡ 0 → make_room s ≡ err value_error
unfolding drop_oldest
make_room_none s v h = elim (Bool-cases (leb s.max_size (length s.drafts))) [
  | inr less ↦ absurd (ground arith)
  | inl full ↦ rw (full, drop_oldest, oldest-none s.drafts (omega (arith, v.bounded, h))) refl
]
