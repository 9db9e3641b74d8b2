-- ===== src/Template/Variables.antt =====
-- `_resolve_variable` and `_access_attribute` of src/ploston_core/template/engine.py.
use ploston_core.Prelude.{
  ℕ, zero, suc, ◌-◌, String, ◌&&◌, Option, none, some, List, [], ◌∷◌, ◌==◌, ltb, or_else,
  if◌then◌else◌,
}
use ploston_core.Prelude.Int.{ℤ, pos, negsuc}
use ploston_core.Prelude.Texts.{split_at}
use ploston_core.Prelude.Strings.{has_char, before, after}
use ploston_core.Errors.{Exc, Result, ok, err, ◌>>=◌}
use ploston_core.Value.{Value, Items, nil, cons, end, get_field}
use ploston_core.Template.{Python, TemplateContext}

abbrev pub key_error : Exc
key_error = Exc.other "KeyError"

abbrev pub or_key_error : Option Value → Result Value
or_key_error none = err key_error
or_key_error (some v) = ok v

-- `_access_attribute`
unfoldable pub access_attribute : Python → String → Value → Result Value
access_attribute py attr (Value.dict fs) = or_key_error (get_field attr fs)
access_attribute py attr (Value.object c fs) = elim (get_field attr fs) [
  | some v ↦ ok v
  | none ↦ or_key_error (py.attribute attr (Value.object c fs))
]
access_attribute py attr v = or_key_error (py.attribute attr v)

unfoldable pub item_at : ℕ → Items → Result Value
item_at n nil = err (Exc.other "IndexError")
item_at zero (cons v vs) = ok v
item_at (suc n) (cons v vs) = item_at n vs

unfoldable pub count_items : Items → ℕ
count_items nil = 0
count_items (cons v vs) = suc (count_items vs)

-- `current[index]`, which counts from the end below 0.
unfoldable pub index_into : ℤ → Value → Result Value
unfolding item_at count_items
index_into (pos n) (Value.list vs) = item_at n vs
index_into (negsuc n) (Value.list vs) =
    if ltb n (count_items vs)
    then item_at (count_items vs - suc n) vs
    else err (Exc.other "IndexError")
index_into index v = err Exc.type_error

-- `part[part.index("[") + 1 : part.index("]")]`
abbrev pub index_text : String → String
index_text part = if has_char b']' (before b'[' part) then "" else before b']' (after b'[' part)

-- The key before the index, if there is one.
abbrev pub keyed : Python → String → Value → Result Value
keyed py key current = if key == "" then ok current else access_attribute py key current

abbrev pub indexed : Python → String → Value → Option ℤ → Result Value
indexed py key current none = err key_error
indexed py key current (some index) = keyed py key current >>= index_into index

-- A step of the walk.
unfoldable pub navigate : Python → String → Value → Result Value
navigate py part current =
    if has_char b'[' part && has_char b']' part
    then indexed py (before b'[' part) current (py.int_of (index_text part))
    else access_attribute py part current

unfoldable pub walk : Python → List String → Value → Result Value
walk py [] current = ok current
walk py (part ∷ parts) current = elim (navigate py part current) [
  | err raised ↦ err raised
  | ok next ↦ walk py parts next
]

-- The namespaces. The parts after `execution_id` are ignored.
unfoldable pub resolve_from : Python → List String → TemplateContext → Result Value
resolve_from py [] context = err key_error
resolve_from py (root ∷ parts) context =
    if root == "inputs"
    then walk py parts (Value.dict context.inputs)
    else if root == "steps"
    then walk py parts (Value.dict context.steps)
    else if root == "config"
    then walk py parts (Value.dict context.config)
    else if root == "execution_id"
    then ok (Value.str context.execution_id)
    else if root == "workflow"
    then walk py parts (Value.dict (or_else context.workflow end))
    else err key_error

unfoldable pub resolve_variable : Python → String → TemplateContext → Result Value
resolve_variable py path context = resolve_from py (split_at b'.' path) context
