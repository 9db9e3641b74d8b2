-- ===== src/Engine/Normalize.antt =====
-- `normalize_mcp_response` of src/ploston_core/engine/normalize.py. `loads` is `json.loads`, `none` for
-- the exceptions that are caught.
use ploston_core.Prelude.{
  Bool, true, false, ◌&&◌, Option, none, some, ◌==◌, nat_eq, or_else, if◌then◌else◌,
}
use ploston_core.Value.{Value, cons, Fields, get_field}
use ploston_core.Value.Compare.{size}

abbrev pub is_text : Option Value → Bool
is_text (some (Value.str s)) = true
is_text _ = false

abbrev pub is_null : Option Value → Bool
is_null (some Value.null) = true
is_null _ = false

-- Whether `result` is a dict with a `content`.
abbrev pub has_content : Value → Bool
has_content (Value.dict fs) = elim (get_field "content" fs) [ none ↦ false | some v ↦ true ]
has_content v = false

-- Shapes 1 and 2.
unfoldable pub unwrap_result : Fields → Value
unwrap_result fs = elim (get_field "result" fs) [
  | none ↦ Value.dict fs
  | some result ↦
      if is_text (get_field "status" fs)
      then result
      else if has_content result
      then result
      else Value.dict fs
]

-- Shapes 4 and 5.
unfoldable pub unwrap_content : Value → Value
unwrap_content (Value.dict fs) = elim (get_field "content" fs) [
  | none ↦ Value.dict fs
  | some content ↦
      if nat_eq (size fs) 1
      then content
      else if nat_eq (size fs) 2 && is_null (get_field "error" fs)
      then content
      else Value.dict fs
]
unwrap_content v = v

abbrev pub is_type_text : Option Value → Bool
is_type_text (some (Value.str s)) = s == "text"
is_type_text _ = false

abbrev pub loaded : (Value → Option Value) → Value → Value
loaded loads text_val = or_else (loads text_val) text_val

-- Shape 3.
unfoldable pub parse_text : (Value → Option Value) → Value → Value
parse_text loads (Value.list (cons (Value.dict fs) vs)) =
    if is_type_text (get_field "type" fs)
    then loaded loads (or_else (get_field "text" fs) (Value.str ""))
    else Value.list (cons (Value.dict fs) vs)
parse_text loads v = v

abbrev pub unwrap : Value → Value
unwrap (Value.dict fs) = unwrap_content (unwrap_result fs)
unwrap v = v

unfoldable pub normalize_mcp_response : (Value → Option Value) → Value → Value
normalize_mcp_response loads raw = parse_text loads (unwrap raw)
