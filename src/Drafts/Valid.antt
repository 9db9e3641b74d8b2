-- ===== src/Drafts/Valid.antt =====
-- What holds of every `DraftStore` in use, and the changes that keep it.
use ploston_core.Prelude.{
  ℕ, suc, ◌≤◌, ◌<◌, ◌≡◌, String, true, List, [], ◌∷◌, length, arith, is_some,
}
use ploston_core.Prelude.Assoc.{Assoc, lookup, insert, erase, keys}
use ploston_core.Prelude.Count.{Distinct}
use ploston_core.Prelude.Dicts.{erase-Distinct, insert-Distinct}
use ploston_core.Drafts.{
  DraftEntry, DraftStore, Draft, stale_ids, pop_all, evict_expired, draft_id_of, entry_of,
  store_draft,
}
use ploston_core.Drafts.Lookups.{pop_all-Distinct}

-- The ids are distinct and there are at most `max_size` drafts.
pub record IsValid (s : DraftStore) : Type 0 where
  pub distinct : Distinct (keys s.drafts)
  pub bounded : length s.drafts ≤ s.max_size

pub length-erase_le : (k : String) (d : Assoc DraftEntry) → length (erase k d) ≤ length d
unfolding erase
length-erase_le k [] = omega arith
length-erase_le k ((j, e) ∷ d) = ground (arith, length-erase_le k d)

pub length-erase_lt :
    (k : String) (d : Assoc DraftEntry)
    → is_some (lookup k d) ≡ true
    → length (erase k d) < length d
unfolding erase lookup
length-erase_lt k [] h = cc
length-erase_lt k ((j, e) ∷ d) h = ground (arith, length-erase_le k d, length-erase_lt k d)

length-insert_le :
    (k : String) (e : DraftEntry) (d : Assoc DraftEntry) → length (insert k e d) ≤ suc (length d)
unfolding insert
length-insert_le k e [] = omega arith
length-insert_le k e ((j, f) ∷ d) = ground (arith, length-insert_le k e d)

pub length-insert_same :
    (k : String) (e : DraftEntry) (d : Assoc DraftEntry)
    → is_some (lookup k d) ≡ true
    → length (insert k e d) ≡ length d
unfolding insert lookup
length-insert_same k e [] h = cc
length-insert_same k e ((j, f) ∷ d) h = ground (arith, length-insert_same k e d)

length-pop_all_le : (ks : List String) (d : Assoc DraftEntry) → length (pop_all ks d) ≤ length d
unfolding pop_all
length-pop_all_le [] d = omega arith
length-pop_all_le (k ∷ ks) d = omega (arith, length-pop_all_le ks (erase k d), length-erase_le k d)

pub evict_expired-IsValid : (now : ℕ) (s : DraftStore) → IsValid s → IsValid (evict_expired now s)
unfolding evict_expired
evict_expired-IsValid now s v = record {
  distinct = pop_all-Distinct (stale_ids s.ttl now s.drafts) s.drafts v.distinct;
  bounded = omega (arith, v.bounded, length-pop_all_le (stale_ids s.ttl now s.drafts) s.drafts);
}

pub erase-IsValid :
    (k : String) (s : DraftStore) → IsValid s → IsValid (record s { drafts = erase k s.drafts })
erase-IsValid k s v = record {
  distinct = erase-Distinct k s.drafts v.distinct;
  bounded = omega (arith, v.bounded, length-erase_le k s.drafts);
}

pub store_draft-IsValid :
    (d : Draft) (s : DraftStore)
    → IsValid s
    → length s.drafts < s.max_size
    → IsValid (store_draft d s).1
store_draft-IsValid d s v room = record {
  distinct = insert-Distinct (draft_id_of d.token) (entry_of d) s.drafts v.distinct;
  bounded = omega (arith, room, length-insert_le (draft_id_of d.token) (entry_of d) s.drafts);
}
