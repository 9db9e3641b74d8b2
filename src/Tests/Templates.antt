-- ===== src/Tests/Templates.antt =====
-- Templates that are rendered.
use ploston_core.Prelude.{
  ◌≡◌, refl, String, true, false, Option, none, some, [], ◌∷◌, ◌==◌, ltb, mem, if◌then◌else◌,
  eq_iff, arith, Bool-cases, inl, inr, List,
}
use ploston_core.Prelude.Int.{ℤ, pos}
use ploston_core.Prelude.Dicts.{any}
use ploston_core.Prelude.Texts.{split_at, prepend, join}
use ploston_core.Prelude.Strings.{strip, starts_with, ends_with, has_char, before, after, replace}
use ploston_core.Errors.{ok}
use ploston_core.Value.{Value, end, field, nil, cons, get_field}
use ploston_core.Template.{Python, TemplateContext}
use ploston_core.Template.Parser.{
  closing, match_at, find_from, extract_templates, in_braces, has_templates, is_pure_template,
  variable_of, extract_all_references, next_is_word, has_word, syntax_errors, validate_syntax,
}
use ploston_core.Template.Variables.{
  access_attribute, item_at, index_into, navigate, walk, resolve_from, resolve_variable,
}
use ploston_core.Template.Filters.{filter_string}
use ploston_core.Template.Render.{
  apply_filters, evaluate_expression, interpolate, render_string, render_text, render_value, render,
  validate, validate_value,
}
use ploston_core.Value.{dict_of}
use ploston_core.Validator.{Texts, template_errors, template_references}
use ploston_core.Template.Agreement.{render-agrees}
use ploston_core.Template.Braces.{starts_solid, is_expression}
use ploston_core.Template.Pieces.{
  Piece, literal, template, shown as shown_pieces, expressions, are_plain,
}
use ploston_core.Template.Mixed.{render_string-fills}

abbrev pub shown : Value → String
shown (Value.str s) = s
shown v = "?"

abbrev pub index_of : String → Option ℤ
index_of s = if s == "0" then some (pos 0) else none

abbrev pub py : Python
py = record {
  is_word = λ c. ltb 96 c;
  str = shown;
  dumps = λ v. ok (shown v);
  to_int = λ v. none;
  to_float = λ v. none;
  int_of = index_of;
  number_of = λ s. none;
  attribute = λ name v. none;
}

abbrev pub texts_with : Python → Texts
texts_with python = record {
  python = python;
  listed = join ", ";
  sorted_list = join ", ";
  sorted_set = join ", ";
  joined_set = join ", ";
}

abbrev context : String → TemplateContext
context secret = record {
  inputs =
      field "name" (Value.str "Ada")
        (field "rows" (Value.list (cons (Value.list (cons (Value.str "x") nil)) nil)) end);
  steps = end;
  config = field "secret" (Value.str secret) end;
  execution_id = "e1";
  workflow = none;
}

abbrev greeting : Value
greeting = Value.str "Hi {{ inputs.name }}!"

rendered_greeting :
    render py greeting (context "s")
    ≡ ok (record {
      value = Value.str "Hi Ada!";
      had_templates = true;
      templates_rendered = "inputs.name" ∷ [];
    })
unfolding render render_value render_text has_templates find_from match_at closing starts_with
    validate_syntax syntax_errors split_at has_char extract_templates strip variable_of has_word
    next_is_word render_string is_pure_template ends_with interpolate evaluate_expression
    resolve_variable resolve_from walk navigate access_attribute get_field apply_filters
    filter_string replace prepend join any
rendered_greeting = refl

-- Two spaces: the template is evaluated, and its text stays in the result.
stays_unrendered :
    render_string py (context "s") "{{  inputs.name  }}" ≡ ok (Value.str "{{  inputs.name  }}")
unfolding find_from match_at closing starts_with split_at has_char extract_templates strip
    variable_of render_string is_pure_template ends_with interpolate evaluate_expression
    resolve_variable resolve_from walk navigate access_attribute get_field apply_filters
    filter_string replace prepend join any
stays_unrendered = refl

-- The second index is ignored.
second_index_ignored :
    resolve_variable py "inputs.rows[0][1]" (context "s")
    ≡ ok (Value.list (cons (Value.str "x") nil))
unfolding split_at has_char resolve_variable resolve_from walk navigate access_attribute get_field
    prepend before after index_into item_at
second_index_ignored = refl

names_only : (r : String) → mem r (extract_all_references greeting) ≡ true → "inputs.name" ≡ r
unfolding mem extract_all_references extract_templates find_from match_at closing starts_with strip
    variable_of split_at prepend
names_only r m = (eq_iff "inputs.name" r).0 (ground arith)

name_agrees :
    resolve_variable py "inputs.name" (context "one")
    ≡ resolve_variable py "inputs.name" (context "two")
unfolding split_at prepend has_char resolve_variable resolve_from walk navigate access_attribute
    get_field
name_agrees = refl

-- The secret is not among the references.
render-agrees_example : render py greeting (context "one") ≡ render py greeting (context "two")
render-agrees_example =
    render-agrees py greeting (context "one") (context "two")
      (λ r m. rw (← (names_only r m)) name_agrees)

abbrev letter : List Piece
letter =
    literal "Hi "
    ∷ template "inputs.name"
    ∷ literal ", } "
    ∷ template "inputs.name"
    ∷ literal "}"
    ∷ []

abbrev name_value : String → Value
name_value t = if t == "inputs.name" then Value.str "Ada" else Value.null

name_value_plain : (t : String) → has_char b'{' (filter_string py (name_value t)) ≡ false
unfolding filter_string has_char
name_value_plain t = elim (Bool-cases (t == "inputs.name")) [
  | inl same ↦ rw same refl
  | inr other ↦ rw other refl
]

name_evaluates : evaluate_expression py (context "s") "inputs.name" ≡ ok (name_value "inputs.name")
unfolding split_at prepend has_char strip variable_of evaluate_expression resolve_variable
    resolve_from walk navigate access_attribute get_field apply_filters
name_evaluates = refl

letter_names : (t : String) → mem t (expressions letter) ≡ true → "inputs.name" ≡ t
unfolding mem expressions
letter_names t m = (eq_iff "inputs.name" t).0 (ground arith)

render_string-fills_example :
    render_string py (context "s") (shown_pieces (in_braces " ") letter)
    ≡ ok (Value.str (shown_pieces (λ t. filter_string py (name_value t)) letter))
unfolding are_plain is_expression starts_solid has_char strip is_pure_template starts_with ends_with
    extract_templates find_from match_at closing shown_pieces join
render_string-fills_example =
    render_string-fills py (context "s") name_value letter refl refl name_value_plain
      (λ t m. rw (← (letter_names t m)) name_evaluates)

letter_text : shown_pieces (λ t. filter_string py (name_value t)) letter ≡ "Hi Ada, } Ada}"
unfolding shown_pieces filter_string
letter_text = refl

filtered_reference :
    template_references (("q", Value.str "{{ inputs.q | length }}") ∷ []) ≡ "inputs.q" ∷ []
unfolding template_references dict_of extract_all_references extract_templates find_from match_at
    closing starts_with strip variable_of split_at prepend
filtered_reference = refl

dash_refused :
    template_errors (texts_with py) (("q", Value.str "{{ inputs.a-b }}") ∷ [])
    ≡ "Arithmetic expressions not supported: inputs.a-b" ∷ []
unfolding template_errors dict_of validate validate_value validate_syntax extract_templates
    find_from match_at closing starts_with strip variable_of split_at prepend syntax_errors has_char
    any has_word next_is_word
dash_refused = refl
