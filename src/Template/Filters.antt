-- ===== src/Template/Filters.antt =====
-- src/ploston_core/template/filters.py, with `_apply_filter` and `_parse_filter_arg` of engine.py.
use ploston_core.Prelude.{
  ◌-◌, String, Bool, true, false, ◌&&◌, ◌||◌, Option, List, [], ◌∷◌, ◌==◌, or_else, if◌then◌else◌,
}
use ploston_core.Prelude.Int.{pos}
use ploston_core.Prelude.Texts.{join}
use ploston_core.Prelude.Strings.{
  strip, starts_with, ends_with, has_char, before, after, before_last, drop, size_of, chars,
}
use ploston_core.Errors.{Exc, Result, ok, err, ◌>>=◌}
use ploston_core.Value.{Value, Items, nil, cons, Fields, end, field, list_of_texts}
use ploston_core.Value.Compare.{size}
use ploston_core.Template.{Python, template_error}
use ploston_core.Template.Variables.{count_items}

unfoldable pub filter_length : Value → Result Value
filter_length (Value.str s) = ok (Value.int (pos (size_of s)))
filter_length (Value.list vs) = ok (Value.int (pos (count_items vs)))
filter_length (Value.dict fs) = ok (Value.int (pos (size fs)))
filter_length v = err Exc.type_error

unfoldable pub filter_default : Value → Value → Value
filter_default Value.null default = default
filter_default v default = v

unfoldable pub filter_string : Python → Value → String
filter_string py Value.null = ""
filter_string py v = py.str v

-- `filter_int` and `filter_float`, which return `None` on failure.
unfoldable pub converted : (Value → Option Value) → Value → Value
converted to Value.null = Value.null
converted to v = or_else (to v) Value.null

unfoldable pub texts_of : Python → Items → List String
texts_of py nil = []
texts_of py (cons v vs) = py.str v ∷ texts_of py vs

unfoldable pub keys_of : Fields → List String
keys_of end = []
keys_of (field k v fs) = k ∷ keys_of fs

-- `str(x) for x in value`
unfoldable pub iterated : Python → Value → Result (List String)
iterated py (Value.list vs) = ok (texts_of py vs)
iterated py (Value.dict fs) = ok (keys_of fs)
iterated py (Value.str s) = ok (chars s)
iterated py v = err Exc.type_error

abbrev pub joined_by : Python → Value → Value → Result Value
joined_by py v (Value.str separator) =
    iterated py v >>= λ parts. ok (Value.str (join separator parts))
joined_by py v separator = err (Exc.other "AttributeError")

unfoldable pub filter_join : Python → Value → Value → Result Value
filter_join py Value.null separator = ok (Value.str "")
filter_join py v separator = joined_by py v separator

unfoldable pub filter_keys : Value → Value
filter_keys (Value.dict fs) = Value.list (list_of_texts (keys_of fs))
filter_keys v = Value.list nil

unfoldable pub values_of : Fields → Items
values_of end = nil
values_of (field k v fs) = cons v (values_of fs)

unfoldable pub filter_values : Value → Value
filter_values (Value.dict fs) = Value.list (values_of fs)
filter_values v = Value.list nil

-- `filter_first`; what has no item at 0 gives `None`.
unfoldable pub filter_first : Value → Value
filter_first (Value.list (cons v vs)) = v
filter_first (Value.str (String.◌∷◌ c s)) = Value.str (String.◌∷◌ c String.[])
filter_first v = Value.null

unfoldable pub last_of : Value → Items → Value
last_of v nil = v
last_of v (cons w vs) = last_of w vs

-- `filter_last`
unfoldable pub filter_last : Value → Value
filter_last (Value.list (cons v vs)) = last_of v vs
filter_last (Value.str s) = if s == "" then Value.null else Value.str (drop (size_of s - 1) s)
filter_last v = Value.null

-- A call with the value only: an argument is a TypeError.
abbrev pub alone : List Value → Result Value → Result Value
alone [] result = result
alone (a ∷ args) result = err Exc.type_error

abbrev pub with_default : Value → List Value → Result Value
with_default v (default ∷ []) = ok (filter_default v default)
with_default v args = err Exc.type_error

abbrev pub with_separator : Python → Value → List Value → Result Value
with_separator py v [] = filter_join py v (Value.str "")
with_separator py v (separator ∷ []) = filter_join py v separator
with_separator py v (separator ∷ a ∷ args) = err Exc.type_error

abbrev pub dumped : Python → Value → Result Value
dumped py v = py.dumps v >>= λ text. ok (Value.str text)

-- `FILTERS[name](value, *args)`, an error for an unknown name.
unfoldable pub call_filter : Python → String → List Value → Value → Result Value
call_filter py name args v =
    if name == "length"
    then alone args (filter_length v)
    else if name == "default"
    then with_default v args
    else if name == "json" || name == "tojson"
    then alone args (dumped py v)
    else if name == "string"
    then alone args (ok (Value.str (filter_string py v)))
    else if name == "int"
    then alone args (ok (converted py.to_int v))
    else if name == "float"
    then alone args (ok (converted py.to_float v))
    else if name == "join"
    then with_separator py v args
    else if name == "keys"
    then alone args (ok (filter_keys v))
    else if name == "values"
    then alone args (ok (filter_values v))
    else if name == "first"
    then alone args (ok (filter_first v))
    else if name == "last"
    then alone args (ok (filter_last v))
    else err template_error

abbrev pub is_quoted : String → String → Bool
is_quoted quote s = starts_with s quote && ends_with s quote

unfoldable pub before_end : String → String
before_end String.[] = ""
before_end (String.◌∷◌ c String.[]) = ""
before_end (String.◌∷◌ c (String.◌∷◌ d s)) = String.◌∷◌ c (before_end (String.◌∷◌ d s))

-- `s[1:-1]`
unfoldable pub inner : String → String
inner s = before_end (drop 1 s)

unfoldable pub parse_filter_arg : Python → String → Value
parse_filter_arg py arg_str =
    let s = strip arg_str in
    if is_quoted "'" s || is_quoted "\"" s
    then Value.str (inner s)
    else if s == "true"
    then Value.bool true
    else if s == "false"
    then Value.bool false
    else or_else (py.number_of s) (Value.str s)

-- `filter_expr[filter_expr.index("(") + 1 : filter_expr.rindex(")")]`, a ValueError without a ")".
abbrev pub argument_text : String → Result String
argument_text s =
    if has_char b')' s then ok (strip (before_last b')' (after b'(' s))) else err Exc.value_error

abbrev pub arguments : Python → String → List Value
arguments py args_str = if args_str == "" then [] else parse_filter_arg py args_str ∷ []

unfoldable pub apply_filter : Python → String → Value → Result Value
apply_filter py filter_expr v =
    if has_char b'(' filter_expr
    then (argument_text filter_expr >>= λ args_str.
        call_filter py (strip (before b'(' filter_expr)) (arguments py args_str) v)
    else call_filter py (strip filter_expr) [] v
