-- ===== src/Staged/Paths.antt =====
-- The values at the paths of a configuration after `set_at`.
use ploston_core.Prelude.{
  ◌≡◌, refl, sym, ap, ◌∙◌, String, Bool, true, false, ◌&&◌, Option, none, some, List, [], ◌∷◌, ◌==◌,
  inl, inr, Bool-cases, eq_iff, if◌then◌else◌, arith,
}
use ploston_core.Value.{Value, Fields, get_field}
use ploston_core.Staged.{put_field, deep_merge, merged, is_json, is_json_fields, child, set_at}
use ploston_core.Staged.Json.{get_field-put_field, child-is_json, set_at-is_json}
use ploston_core.Staged.Merge.{
  overlay, merged_into, field_of, at, merged-dict, get_field-merged_into,
}

put_field_self : (k : String) (v : Value) (fs : Fields) → get_field k (put_field k v fs) ≡ some v
put_field_self k v fs = get_field-put_field k k v fs ∙ rw ((eq_iff k k).1 refl) refl

-- At the path that is set there is the value, merged into the one of the base.
pub at-set_at :
    (k : String) (ks : List String) (v : Value) (fs : Fields) (old : Option Value)
    → is_json v ≡ true
    → is_json_fields fs ≡ true
    → at (k ∷ ks) (some (Value.dict (merged_into old (set_at (k ∷ ks) v fs))))
      ≡ some (merged (at (k ∷ ks) old) v)
unfolding at field_of set_at overlay
at-set_at k [] v fs old hv h =
    rw (get_field-merged_into k old (put_field k v fs) (set_at-is_json (k ∷ []) v fs hv h))
      (rw (put_field_self k v fs) refl)
at-set_at k (j ∷ ks) v fs old hv h =
    let below = set_at (j ∷ ks) v (child (get_field k fs)) in
    rw
      (get_field-merged_into k old (put_field k (Value.dict below) fs)
        (set_at-is_json (k ∷ j ∷ ks) v fs hv h))
      (rw (put_field_self k (Value.dict below) fs, merged-dict (field_of k old) below)
        (at-set_at j ks v (child (get_field k fs)) (field_of k old) hv (child-is_json k fs h)))

-- Neither path is at or below the other.
unfoldable pub diverge : List String → List String → Bool
diverge (k ∷ ks) (j ∷ js) = if k == j then diverge ks js else true
diverge _ _ = false

abbrev pub is_open : Option Value → Bool
is_open none = true
is_open (some (Value.dict fs)) = true
is_open (some _) = false

-- No staged value on the way to the path is something else than a dict.
unfoldable pub is_free : List String → Fields → Bool
is_free (k ∷ j ∷ ks) fs = is_open (get_field k fs) && is_free (j ∷ ks) (child (get_field k fs))
is_free _ fs = true

get_field-set_at :
    (k j : String) (ks : List String) (v : Value) (fs : Fields)
    → (k == j) ≡ false
    → get_field j (set_at (k ∷ ks) v fs) ≡ get_field j fs
unfolding set_at
get_field-set_at k j [] v fs ne = get_field-put_field j k v fs ∙ rw ne refl
get_field-set_at k j (i ∷ ks) v fs ne =
    get_field-put_field j k (Value.dict (set_at (i ∷ ks) v (child (get_field k fs)))) fs
    ∙ rw ne refl

-- An empty dict that `set` makes on its way shows at no path.
at-child :
    (k : String) (ks : List String) (old staged : Option Value)
    → is_open staged ≡ true
    → at (k ∷ ks) (some (Value.dict (merged_into old (child staged))))
      ≡ at (k ∷ ks) (overlay old staged)
unfolding at field_of overlay child merged_into deep_merge get_field
at-child k ks none none h = refl
at-child k ks (some (Value.dict fs)) none h = refl
at-child k ks (some Value.null) none h = refl
at-child k ks (some (Value.bool b)) none h = refl
at-child k ks (some (Value.int n)) none h = refl
at-child k ks (some (Value.str s)) none h = refl
at-child k ks (some (Value.list vs)) none h = refl
at-child k ks (some (Value.object c fs)) none h = refl
at-child k ks old (some (Value.dict fs)) h = rw (merged-dict old fs) refl
at-child k ks old (some Value.null) h = cc
at-child k ks old (some (Value.bool b)) h = cc
at-child k ks old (some (Value.int n)) h = cc
at-child k ks old (some (Value.str s)) h = cc
at-child k ks old (some (Value.list vs)) h = cc
at-child k ks old (some (Value.object c fs)) h = cc

at-set_at_apart :
    (k : String) (ks : List String) (j : String) (js : List String) (v : Value) (fs : Fields)
    (old : Option Value)
    → is_json v ≡ true
    → is_json_fields fs ≡ true
    → (k == j) ≡ false
    → at (j ∷ js) (some (Value.dict (merged_into old (set_at (k ∷ ks) v fs))))
      ≡ at (j ∷ js) (some (Value.dict (merged_into old fs)))
unfolding at field_of
at-set_at_apart k ks j js v fs old hv h ne =
    rw
      (
        get_field-merged_into j old (set_at (k ∷ ks) v fs) (set_at-is_json (k ∷ ks) v fs hv h),
        get_field-merged_into j old fs h,
        get_field-set_at k j ks v fs ne,
      )
      refl

-- One key further down on both paths.
at-set_at_below :
    (k i : String) (ks : List String) (j : String) (js : List String) (v : Value) (fs : Fields)
    (old : Option Value)
    → is_json v ≡ true
    → is_json_fields fs ≡ true
    → is_open (get_field k fs) ≡ true
    → at (j ∷ js) (
        some
          (Value.dict (merged_into (field_of k old) (set_at (i ∷ ks) v (child (get_field k fs))))))
      ≡ at (j ∷ js) (some (Value.dict (merged_into (field_of k old) (child (get_field k fs)))))
    → at (k ∷ j ∷ js) (some (Value.dict (merged_into old (set_at (k ∷ i ∷ ks) v fs))))
      ≡ at (k ∷ j ∷ js) (some (Value.dict (merged_into old fs)))
unfolding set_at at field_of
at-set_at_below k i ks j js v fs old hv h shown ih =
    let below = set_at (i ∷ ks) v (child (get_field k fs)) in
    let json = set_at-is_json (k ∷ i ∷ ks) v fs hv h in
    ap (at (j ∷ js)) (after below json)
    ∙ ih
    ∙ at-child j js (field_of k old) (get_field k fs) shown
    ∙ ap (at (j ∷ js)) (sym (get_field-merged_into k old fs h))
  where
    after :
        (below : Fields)
        → is_json_fields (put_field k (Value.dict below) fs) ≡ true
        → get_field k (merged_into old (put_field k (Value.dict below) fs))
          ≡ some (Value.dict (merged_into (field_of k old) below))
    after below json =
        get_field-merged_into k old (put_field k (Value.dict below) fs) json
        ∙ ap (overlay (field_of k old)) (put_field_self k (Value.dict below) fs)
        ∙ unfold overlay in ap some (merged-dict (field_of k old) below)

-- At a path that diverges there is what was there.
pub at-set_at_other :
    (k : String) (ks : List String) (j : String) (js : List String) (v : Value) (fs : Fields)
    (old : Option Value)
    → is_json v ≡ true
    → is_json_fields fs ≡ true
    → is_free (k ∷ ks) fs ≡ true
    → diverge (k ∷ ks) (j ∷ js) ≡ true
    → at (j ∷ js) (some (Value.dict (merged_into old (set_at (k ∷ ks) v fs))))
      ≡ at (j ∷ js) (some (Value.dict (merged_into old fs)))
unfolding diverge is_free
at-set_at_other k [] j js v fs old hv h free apart = elim (Bool-cases (k == j)) [
  | inr ne ↦ at-set_at_apart k [] j js v fs old hv h ne
  | inl eq ↦ let never = rw eq at apart in cc never
]
at-set_at_other k (i ∷ ks) j [] v fs old hv h free apart = elim (Bool-cases (k == j)) [
  | inr ne ↦ at-set_at_apart k (i ∷ ks) j [] v fs old hv h ne
  | inl eq ↦ let never = rw eq at apart in cc never
]
at-set_at_other k (i ∷ ks) j (m ∷ js) v fs old hv h free apart = elim (Bool-cases (k == j)) [
  | inr ne ↦ at-set_at_apart k (i ∷ ks) j (m ∷ js) v fs old hv h ne
  | inl eq ↦
      let down = rw eq at apart in
      let (here, there) =
        both (is_open (get_field k fs)) (is_free (i ∷ ks) (child (get_field k fs))) free in
      rw (← ((eq_iff k j).0 eq)) (
        at-set_at_below k i ks m js v fs old hv h here (
          at-set_at_other i ks m js v (child (get_field k fs)) (field_of k old) hv
            (child-is_json k fs h) there down))
]
  where
    both : (a b : Bool) → (a && b) ≡ true → (a ≡ true) × (b ≡ true)
    both a b h = ground arith
