-- ===== src/Template/Parser.antt =====
-- src/ploston_core/template/parser.py: the templates of a text, and the checks of their syntax.
use Prim.Native.Char.{code}
use Prim.Native.String
use ploston_core.Prelude.{
  ℕ, zero, suc, ◌+◌, ◌-◌, String, Bool, true, false, not, ◌&&◌, ◌||◌, Option, none, some, List, [],
  ◌∷◌, ◌++◌, map, ◌==◌, nat_eq, if◌then◌else◌,
}
use ploston_core.Prelude.Dicts.{any}
use ploston_core.Prelude.Texts.{join, split_at}
use ploston_core.Prelude.Strings.{strip, starts_with, ends_with, has_char, drop, size_of}
use ploston_core.Value.{Value, Items, nil, cons, Fields, end, field}
use ploston_core.Template.{Python}

-- The shortest text up to "}}", which holds no newline, and how far the match goes.
unfoldable pub closing : String → Option (String × ℕ)
closing String.[] = none
closing (String.◌∷◌ c s) =
    let rest : Option (String × ℕ) = elim (closing s) [
      | none ↦ none
      | some (g, n) ↦ some (String.◌∷◌ c g, suc n)
    ] in
    if starts_with (String.◌∷◌ c s) "}}"
    then some ("", 2)
    else if nat_eq (code c) 10
    then none
    else rest

-- `TEMPLATE_PATTERN` at the start of a text: "{{", at least one character, and "}}".
unfoldable pub match_at : String → Option (String × ℕ)
match_at String.[] = none
match_at (String.◌∷◌ a String.[]) = none
match_at (String.◌∷◌ a (String.◌∷◌ b String.[])) = none
match_at (String.◌∷◌ a (String.◌∷◌ b (String.◌∷◌ c s))) =
    if nat_eq (code a) b'{' && (nat_eq (code b) b'{' && not (nat_eq (code c) 10))
    then elim (closing s) [ none ↦ none | some (g, n) ↦ some (String.◌∷◌ c g, n + 3) ]
    else none

-- `TEMPLATE_PATTERN.finditer`, where `skip` characters still belong to the last match.
unfoldable pub find_from : ℕ → String → List String
find_from skip String.[] = []
find_from (suc skip) (String.◌∷◌ c s) = find_from skip s
find_from zero (String.◌∷◌ c s) = elim (match_at (String.◌∷◌ c s)) [
  | none ↦ find_from zero s
  | some (g, n) ↦ g ∷ find_from (n - 1) s
]

unfoldable pub extract_templates : String → List String
extract_templates text = map strip (find_from 0 text)

unfoldable pub has_templates : String → Bool
has_templates text = elim (find_from 0 text) [ [] ↦ false | t ∷ ts ↦ true ]

abbrev pub in_braces : String → String → String
in_braces space template = join "" ("{{" ∷ space ∷ template ∷ space ∷ "}}" ∷ [])

abbrev pub is_only : String → List String → Bool
is_only text [] = false
is_only text (t ∷ []) = text == in_braces " " t || text == in_braces "" t
is_only text (t ∷ u ∷ ts) = false

unfoldable pub is_pure_template : String → Bool
is_pure_template text =
    let stripped = strip text in
    starts_with stripped "{{"
    && (ends_with stripped "}}" && is_only stripped (extract_templates stripped))

abbrev pub first_part : List String → String
first_part [] = ""
first_part (p ∷ ps) = p

abbrev pub later_parts : List String → List String
later_parts [] = []
later_parts (p ∷ ps) = ps

-- The variable of a template, which stands before its filters.
unfoldable pub variable_of : String → String
variable_of template = strip (first_part (split_at b'|' template))

unfoldable mutual
  pub extract_all_references : Value → List String
  extract_all_references (Value.str text) = map variable_of (extract_templates text)
  extract_all_references (Value.dict fs) = references_of_fields fs
  extract_all_references (Value.list vs) = references_of_items vs
  extract_all_references _ = []

  pub references_of_items : Items → List String
  references_of_items nil = []
  references_of_items (cons v vs) = extract_all_references v ++ references_of_items vs

  pub references_of_fields : Fields → List String
  references_of_fields end = []
  references_of_fields (field k v fs) = extract_all_references v ++ references_of_fields fs

unfoldable pub next_is_word : Python → String → Bool
next_is_word py String.[] = false
next_is_word py (String.◌∷◌ d t) = py.is_word (code d)

-- `re.search(r"\bword\b", s)`, where `joined` tells whether a word character stands before.
unfoldable pub has_word : Python → String → Bool → String → Bool
has_word py word joined String.[] = false
has_word py word joined (String.◌∷◌ c s) =
    not joined
      && (starts_with (String.◌∷◌ c s) word
          && not (next_is_word py (drop (size_of word) (String.◌∷◌ c s))))
    || has_word py word (py.is_word (code c)) s

abbrev pub when_true : Bool → String → List String
when_true b message = if b then message ∷ [] else []

abbrev pub empty_filters : String → List String → List String
empty_filters template [] = []
empty_filters template (p ∷ ps) =
    when_true (strip p == "") (String.◌++◌ "Empty filter in template: " template)
    ++ empty_filters template ps

abbrev pub call_errors : String → List String → List String
call_errors template [] = []
call_errors template (part ∷ []) =
    when_true (has_char b'(' part) (String.◌++◌ "Function calls not supported: " template)
call_errors template (part ∷ p ∷ ps) = empty_filters template (p ∷ ps)

-- The operators, of which "**" is found as "*".
abbrev pub is_arithmetic : String → Bool
is_arithmetic s =
    has_char b'+' s || has_char b'-' s || has_char b'*' s || has_char b'/' s || has_char b'%' s

-- The errors of one template.
unfoldable pub syntax_errors : Python → String → List String
syntax_errors py template =
    (if has_char b'(' template && has_char b')' template
      then call_errors template (split_at b'|' template)
      else [])
    ++ (when_true (is_arithmetic (variable_of template))
          (String.◌++◌ "Arithmetic expressions not supported: " template)
        ++ when_true
            (any (λ word. has_word py word false template) ("if" ∷ "for" ∷ "while" ∷ "import" ∷ []))
            (String.◌++◌ "Control flow not supported: " template))

abbrev pub errors_of_all : Python → List String → List String
errors_of_all py [] = []
errors_of_all py (t ∷ ts) = syntax_errors py t ++ errors_of_all py ts

unfoldable pub validate_syntax : Python → String → List String
validate_syntax py text = errors_of_all py (extract_templates text)
