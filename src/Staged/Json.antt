-- ===== src/Staged/Json.antt =====
-- Writes and reads of JSON dicts.
use ploston_core.Prelude.{
  ◌≡◌, refl, String, Bool, true, false, not, ◌&&◌, Option, none, some, List, [], ◌∷◌, ◌==◌, inl,
  inr, Bool-cases, is_some, eq_iff, if◌then◌else◌, arith,
}
use ploston_core.Value.{Value, Fields, end, field, get_field}
use ploston_core.Staged.{put_field, is_json, is_json_fields, child, set_at}

pub get_field-put_field :
    (j k : String) (v : Value) (fs : Fields)
    → get_field j (put_field k v fs) ≡ (if k == j then some v else get_field j fs)
unfolding get_field put_field
get_field-put_field j k v end = refl
get_field-put_field j k v (field i w fs) =
    ground (arith, eq_iff k j, eq_iff i k, eq_iff i j, get_field-put_field j k v fs)

-- The parts of the test on a field, which stay shut.
pub is_json_fields-field :
    (k : String) (v : Value) (fs : Fields)
    → is_json_fields (field k v fs) ≡ true
    → (is_some (get_field k fs) ≡ false) × (is_json v ≡ true) × (is_json_fields fs ≡ true)
unfolding is_json_fields
is_json_fields-field k v fs h = parts (is_some (get_field k fs)) (is_json v) (is_json_fields fs) h
  where
    parts : (a b c : Bool) → (not a && (b && c)) ≡ true → (a ≡ false) × (b ≡ true) × (c ≡ true)
    parts a b c h = ground arith

pub field-is_json :
    (k : String) (v : Value) (fs : Fields)
    → is_some (get_field k fs) ≡ false
    → is_json v ≡ true
    → is_json_fields fs ≡ true
    → is_json_fields (field k v fs) ≡ true
unfolding is_json_fields
field-is_json k v fs a b c = rw (a, b, c) refl

pub put_field-is_json :
    (k : String) (v : Value) (fs : Fields)
    → is_json v ≡ true
    → is_json_fields fs ≡ true
    → is_json_fields (put_field k v fs) ≡ true
unfolding put_field
put_field-is_json k v end hv h =
    field-is_json k v end (unfold get_field in refl) hv (unfold is_json_fields in refl)
put_field-is_json k v (field i w fs) hv h =
    let (new, old, rest) = is_json_fields-field i w fs h in
    elim (Bool-cases (i == k)) [
      | inl same ↦ rw same (field-is_json i v fs new hv rest)
      | inr other ↦ rw other (
          field-is_json i w (put_field k v fs)
            (ground (arith, get_field-put_field i k v fs, eq_iff i k, eq_iff k i)) old
            (put_field-is_json k v fs hv rest))
    ]

pub get_field-is_json :
    (k : String) (fs : Fields) (v : Value)
    → is_json_fields fs ≡ true
    → get_field k fs ≡ some v
    → is_json v ≡ true
unfolding get_field
get_field-is_json k end v h e = cc
get_field-is_json k (field i w fs) v h e =
    let (new, old, rest) = is_json_fields-field i w fs h in
    elim (Bool-cases (i == k)) [
      | inl same ↦ let found = rw same at e in cc (found, old)
      | inr other ↦ let found = rw other at e in get_field-is_json k fs v rest found
    ]

pub child-is_json :
    (k : String) (fs : Fields)
    → is_json_fields fs ≡ true
    → is_json_fields (child (get_field k fs)) ≡ true
child-is_json k fs h = of_value (get_field k fs) (λ v. get_field-is_json k fs v h)
  where
    of_value :
        (o : Option Value)
        → ((v : Value) → o ≡ some v → is_json v ≡ true)
        → is_json_fields (child o) ≡ true
    of_value none h = unfold child is_json_fields in refl
    of_value (some (Value.dict fs)) h = unfold child is_json in h (Value.dict fs) refl
    of_value (some Value.null) h = unfold child is_json_fields in refl
    of_value (some (Value.bool b)) h = unfold child is_json_fields in refl
    of_value (some (Value.int n)) h = unfold child is_json_fields in refl
    of_value (some (Value.str s)) h = unfold child is_json_fields in refl
    of_value (some (Value.list vs)) h = unfold child is_json_fields in refl
    of_value (some (Value.object c fs)) h = unfold child is_json_fields in refl

pub set_at-is_json :
    (ks : List String) (v : Value) (fs : Fields)
    → is_json v ≡ true
    → is_json_fields fs ≡ true
    → is_json_fields (set_at ks v fs) ≡ true
unfolding set_at is_json
set_at-is_json [] v fs hv h = h
set_at-is_json (k ∷ []) v fs hv h = put_field-is_json k v fs hv h
set_at-is_json (k ∷ j ∷ ks) v fs hv h =
    put_field-is_json k (Value.dict (set_at (j ∷ ks) v (child (get_field k fs)))) fs
      (set_at-is_json (j ∷ ks) v (child (get_field k fs)) hv (child-is_json k fs h)) h
