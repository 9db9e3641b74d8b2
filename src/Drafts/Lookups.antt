-- ===== src/Drafts/Lookups.antt =====
-- Which drafts `_evict_expired` and `put` leave.
use ploston_core.Prelude.{
  ℕ, ◌<◌, ◌≡◌, refl, ◌∙◌, String, true, Option, none, some, List, [], ◌∷◌, eq_iff, arith,
  if◌then◌else◌, mem,
}
use ploston_core.Prelude.Assoc.{Assoc, lookup, erase, keys, lookup-erase}
use ploston_core.Prelude.Count.{occurs, Distinct, Distinct-tail, not_occurs_head}
use ploston_core.Prelude.Dicts.{erase-Distinct}
use ploston_core.Drafts.{DraftEntry, DraftStore, expired, stale_ids, pop_all, evict_expired}

lookup-pop_all :
    (ks : List String) (k : String) (d : Assoc DraftEntry)
    → lookup k (pop_all ks d) ≡ (if mem k ks then none else lookup k d)
unfolding pop_all mem
lookup-pop_all [] k d = refl
lookup-pop_all (j ∷ ks) k d =
    lookup-pop_all ks k (erase j d) ∙ ground (arith, lookup-erase j k d, eq_iff j k)

pub pop_all-Distinct :
    (ks : List String) (d : Assoc DraftEntry) → Distinct (keys d) → Distinct (keys (pop_all ks d))
unfolding pop_all
pop_all-Distinct [] d h = h
pop_all-Distinct (k ∷ ks) d h = pop_all-Distinct ks (erase k d) (erase-Distinct k d h)

-- What remains of a draft: itself while it is not expired.
unfoldable pub fresh : ℕ → ℕ → Option DraftEntry → Option DraftEntry
fresh ttl now none = none
fresh ttl now (some e) = if expired ttl now e then none else some e

mem-stale_ids :
    (ttl now : ℕ) (k : String) (d : Assoc DraftEntry)
    → mem k (stale_ids ttl now d) ≡ true
    → 0 < occurs k (keys d)
unfolding mem stale_ids occurs
mem-stale_ids ttl now k [] h = cc
mem-stale_ids ttl now k ((j, e) ∷ d) h = ground (arith, mem-stale_ids ttl now k d)

fresh_of_stale :
    (ttl now : ℕ) (k : String) (d : Assoc DraftEntry)
    → Distinct (keys d)
    → (if mem k (stale_ids ttl now d) then none else lookup k d) ≡ fresh ttl now (lookup k d)
unfolding mem stale_ids lookup fresh
fresh_of_stale ttl now k [] h = refl
fresh_of_stale ttl now k ((j, e) ∷ d) h = ground (
  arith,
  eq_iff j k,
  mem-stale_ids ttl now k d,
  not_occurs_head j (keys d) h,
  fresh_of_stale ttl now k d (Distinct-tail j (keys d) h),
)

pub lookup-evict_expired :
    (now : ℕ) (k : String) (s : DraftStore)
    → Distinct (keys s.drafts)
    → lookup k (evict_expired now s).drafts ≡ fresh s.ttl now (lookup k s.drafts)
unfolding evict_expired
lookup-evict_expired now k s h =
    lookup-pop_all (stale_ids s.ttl now s.drafts) k s.drafts ∙ fresh_of_stale s.ttl now k s.drafts h
