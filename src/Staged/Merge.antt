-- ===== src/Staged/Merge.antt =====
-- What `deep_merge` has at a key, and a merge into a value that may be missing.
use ploston_core.Prelude.{
  ◌≡◌, refl, sym, Option-cases, String, true, Option, none, some, List, [], ◌∷◌, inl, inr, eq_iff,
  arith,
}
use ploston_core.Value.{Value, Fields, end, field, get_field}
use ploston_core.Staged.{put_field, deep_merge, merged, is_json_fields, get_at}
use ploston_core.Staged.Json.{get_field-put_field, is_json_fields-field}

-- An old value with what is staged over it, if there is something.
unfoldable pub overlay : Option Value → Option Value → Option Value
overlay old none = old
overlay old (some v) = some (merged old v)

pub get_field-deep_merge :
    (k : String) (base over : Fields)
    → is_json_fields over ≡ true
    → get_field k (deep_merge base over) ≡ overlay (get_field k base) (get_field k over)
unfolding deep_merge get_field overlay
get_field-deep_merge k base end h = refl
get_field-deep_merge k base (field i v fs) h =
    let (new, _, rest) = is_json_fields-field i v fs h in
    let value = merged (get_field i base) v in
    ground (
      arith,
      get_field-deep_merge k (put_field i value base) fs rest,
      get_field-put_field k i value base,
      eq_iff i k,
      new,
    )

pub merged-none : (v : Value) → merged none v ≡ v
unfolding merged
merged-none Value.null = refl
merged-none (Value.bool b) = refl
merged-none (Value.int n) = refl
merged-none (Value.str s) = refl
merged-none (Value.list vs) = refl
merged-none (Value.object c fs) = refl
merged-none (Value.dict fs) = refl

-- The fields that are staged over an old value.
unfoldable pub merged_into : Option Value → Fields → Fields
merged_into (some (Value.dict base)) fs = deep_merge base fs
merged_into _ fs = fs

pub merged-dict :
    (old : Option Value) (fs : Fields)
    → merged old (Value.dict fs) ≡ Value.dict (merged_into old fs)
unfolding merged merged_into
merged-dict none fs = refl
merged-dict (some (Value.dict base)) fs = refl
merged-dict (some Value.null) fs = refl
merged-dict (some (Value.bool b)) fs = refl
merged-dict (some (Value.int n)) fs = refl
merged-dict (some (Value.str s)) fs = refl
merged-dict (some (Value.list vs)) fs = refl
merged-dict (some (Value.object c gs)) fs = refl

unfoldable pub field_of : String → Option Value → Option Value
field_of k (some (Value.dict fs)) = get_field k fs
field_of k _ = none

pub get_field-merged_into :
    (k : String) (old : Option Value) (fs : Fields)
    → is_json_fields fs ≡ true
    → get_field k (merged_into old fs) ≡ overlay (field_of k old) (get_field k fs)
get_field-merged_into k old fs h = by_old old
  where
    alone : (o : Option Value) → o ≡ overlay none o
    alone none = unfold overlay in refl
    alone (some v) = unfold overlay in rw merged-none refl

    by_old :
        (old : Option Value)
        → get_field k (merged_into old fs) ≡ overlay (field_of k old) (get_field k fs)
    by_old (some (Value.dict base)) =
        unfold merged_into field_of in get_field-deep_merge k base fs h
    by_old none = unfold merged_into field_of in alone (get_field k fs)
    by_old (some Value.null) = unfold merged_into field_of in alone (get_field k fs)
    by_old (some (Value.bool b)) = unfold merged_into field_of in alone (get_field k fs)
    by_old (some (Value.int n)) = unfold merged_into field_of in alone (get_field k fs)
    by_old (some (Value.str s)) = unfold merged_into field_of in alone (get_field k fs)
    by_old (some (Value.list vs)) = unfold merged_into field_of in alone (get_field k fs)
    by_old (some (Value.object c gs)) = unfold merged_into field_of in alone (get_field k fs)

-- The walk of `get` from a value that may be missing.
unfoldable pub at : List String → Option Value → Option Value
at [] o = o
at (k ∷ ks) o = at ks (field_of k o)

pub at-none : (ks : List String) → at ks none ≡ none
unfolding at field_of
at-none [] = refl
at-none (k ∷ ks) = at-none ks

pub get_at-at : (ks : List String) (v : Value) → get_at ks v ≡ at ks (some v)
unfolding get_at at field_of
get_at-at [] v = refl
get_at-at (k ∷ ks) (Value.dict fs) = elim (Option-cases (get_field k fs)) [
  | inl missing ↦ rw (missing, get_at) (sym (at-none ks))
  | inr (v, found) ↦ rw (found, get_at) (get_at-at ks v)
]
get_at-at (k ∷ ks) Value.null = sym (at-none ks)
get_at-at (k ∷ ks) (Value.bool b) = sym (at-none ks)
get_at-at (k ∷ ks) (Value.int n) = sym (at-none ks)
get_at-at (k ∷ ks) (Value.str s) = sym (at-none ks)
get_at-at (k ∷ ks) (Value.list vs) = sym (at-none ks)
get_at-at (k ∷ ks) (Value.object c fs) = sym (at-none ks)
