-- ===== src/Drafts/Oldest.antt =====
-- The draft that `min` finds: one of the drafts, and none is older.
use ploston_core.Prelude.{
  ◌≤◌, ◌<◌, ◌≡◌, refl, sym, ◌∙◌, ◌⊎◌, String, none, some, [], ◌∷◌, ◌==◌, eq_iff, eq_refl, ltb,
  arith, Bool-cases, inl, inr, length,
}
use mathlib.Core.Path.{subst}
use ploston_core.Errors.{ok}
use ploston_core.Prelude.Assoc.{Assoc, lookup, erase, keys}
use ploston_core.Prelude.Count.{Distinct, Distinct-tail, not_occurs_head}
use ploston_core.Prelude.Dicts.{occurs-lookup}
use ploston_core.Drafts.{DraftEntry, DraftStore, older, oldest_from, oldest, drop_oldest}

older-le :
    (x best : String × DraftEntry)
    → ((older x best).1.created_at ≤ x.1.created_at)
      × ((older x best).1.created_at ≤ best.1.created_at)
unfolding older
older-le x best = (ground arith, ground arith)

older-cases : (x best : String × DraftEntry) → (older x best ≡ x) ⊎ (older x best ≡ best)
unfolding older
older-cases x best = elim (Bool-cases (ltb x.1.created_at best.1.created_at)) [
  | inl less ↦ inl (rw less refl)
  | inr more ↦ inr (rw more refl)
]

oldest_from-le_best :
    (best : String × DraftEntry) (d : Assoc DraftEntry)
    → (oldest_from best d).1.created_at ≤ best.1.created_at
unfolding oldest_from
oldest_from-le_best best [] = omega arith
oldest_from-le_best best (x ∷ d) =
    omega (arith, oldest_from-le_best (older x best) d, (older-le x best).1)

oldest_from-le :
    (best : String × DraftEntry) (d : Assoc DraftEntry) (k : String) (e : DraftEntry)
    → lookup k d ≡ some e
    → (oldest_from best d).1.created_at ≤ e.created_at
unfolding oldest_from lookup
oldest_from-le best [] k e h = cc
oldest_from-le best ((j, f) ∷ d) k e h = elim (Bool-cases (j == k)) [
  | inr other ↦ oldest_from-le (older (j, f) best) d k e (ground arith)
  | inl same ↦
      let equal : f ≡ e = ground arith in
      subst (λ g. (oldest_from (older (j, f) best) d).1.created_at ≤ g.created_at) equal
        (omega (arith, oldest_from-le_best (older (j, f) best) d, (older-le (j, f) best).0))
]

lookup-head : (x : String × DraftEntry) (d : Assoc DraftEntry) → lookup x.0 (x ∷ d) ≡ some x.1
unfolding lookup
lookup-head x d = rw (eq_refl x.0) refl

lookup-tail :
    (x : String × DraftEntry) (d : Assoc DraftEntry) (o : String × DraftEntry)
    → Distinct (keys (x ∷ d))
    → lookup o.0 d ≡ some o.1
    → lookup o.0 (x ∷ d) ≡ some o.1
unfolding lookup
lookup-tail x d o h e =
    ground (arith, eq_iff x.0 o.0, not_occurs_head x.0 (keys d) h, occurs-lookup o.0 d o.1 e)

oldest_from-found :
    (best : String × DraftEntry) (d : Assoc DraftEntry)
    → Distinct (keys d)
    → (oldest_from best d ≡ best) ⊎ (lookup (oldest_from best d).0 d ≡ some (oldest_from best d).1)
unfolding oldest_from
oldest_from-found best [] h = inl refl
oldest_from-found best (x ∷ d) h =
    elim (oldest_from-found (older x best) d (Distinct-tail x.0 (keys d) h)) [
      | inr later ↦ inr (lookup-tail x d (oldest_from (older x best) d) h later)
      | inl here ↦ elim (older-cases x best) [
        | inr best_is ↦ inl (here ∙ best_is)
        | inl x_is ↦
            inr (subst (λ o. lookup o.0 (x ∷ d) ≡ some o.1) (sym (here ∙ x_is)) (lookup-head x d))
      ]
    ]

oldest-le :
    (x : String × DraftEntry) (d : Assoc DraftEntry) (k : String) (e : DraftEntry)
    → lookup k (x ∷ d) ≡ some e
    → (oldest_from x d).1.created_at ≤ e.created_at
unfolding lookup
oldest-le x d k e at = elim (Bool-cases (x.0 == k)) [
  | inr other ↦ oldest_from-le x d k e (ground arith)
  | inl same ↦
      let equal : x.1 ≡ e = ground arith in
      subst (λ g. (oldest_from x d).1.created_at ≤ g.created_at) equal (oldest_from-le_best x d)
]

-- The oldest draft, by its id and its entry.
pub record IsOldest (o : String × DraftEntry) (d : Assoc DraftEntry) : Type 0 where
  pub here : lookup o.0 d ≡ some o.1
  pub least : (k : String) (e : DraftEntry) → lookup k d ≡ some e → o.1.created_at ≤ e.created_at

oldest-IsOldest :
    (d : Assoc DraftEntry)
    → Distinct (keys d)
    → 0 < length d
    → (o : String × DraftEntry) × (oldest d ≡ some o) × IsOldest o d
unfolding oldest
oldest-IsOldest [] h n = absurd (omega arith)
oldest-IsOldest (x ∷ d) h n = (
  oldest_from x d,
  refl,
  record {
    here = elim (oldest_from-found x d (Distinct-tail x.0 (keys d) h)) [
      | inl first ↦ subst (λ o. lookup o.0 (x ∷ d) ≡ some o.1) (sym first) (lookup-head x d)
      | inr later ↦ lookup-tail x d (oldest_from x d) h later
    ];
    least = oldest-le x d;
  },
)

pub drop_oldest-IsOldest :
    (s : DraftStore)
    → Distinct (keys s.drafts)
    → 0 < length s.drafts
    → (o : String × DraftEntry) × IsOldest o s.drafts
      × (drop_oldest s ≡ ok (record s { drafts = erase o.0 s.drafts }))
unfolding drop_oldest
drop_oldest-IsOldest s h n =
    let (o, found, is) = oldest-IsOldest s.drafts h n in (o, is, rw (drop_oldest, found) refl)

pub oldest-none : (d : Assoc DraftEntry) → length d ≡ 0 → oldest d ≡ none
unfolding oldest
oldest-none [] h = refl
oldest-none (x ∷ d) h = absurd (omega arith)
