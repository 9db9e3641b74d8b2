-- ===== src/Template/Render.antt =====
-- `TemplateEngine` of src/ploston_core/template/engine.py: `render` with what it calls, `validate` and
-- `extract_references`. What the exception of an undefined variable carries for the error's metadata
-- is left out.
use ploston_core.Prelude.{String, Bool, true, false, List, [], ◌∷◌, ◌++◌, map, ◌==◌, if◌then◌else◌}
use ploston_core.Prelude.Texts.{split_at}
use ploston_core.Prelude.Strings.{strip, replace}
use ploston_core.Errors.{Exc, ael, Result, ok, err, ◌>>=◌}
use ploston_core.Value.{Value, Items, nil, cons, Fields, end, field}
use ploston_core.Template.{Python, TemplateContext, template_error}
use ploston_core.Template.Parser.{
  extract_templates, has_templates, in_braces, is_pure_template, later_parts, variable_of,
  extract_all_references, validate_syntax,
}
use ploston_core.Template.Variables.{resolve_variable}
use ploston_core.Template.Filters.{filter_string, apply_filter}

-- A KeyError, an AttributeError or an IndexError becomes a TEMPLATE_ERROR.
abbrev pub caught : Result Value → Result Value
caught (ok v) = ok v
caught (err (Exc.other name)) =
    if name == "KeyError"
    then err template_error
    else if name == "AttributeError"
    then err template_error
    else if name == "IndexError"
    then err template_error
    else err (Exc.other name)
caught (err (ael code detail)) = err (ael code detail)
caught (err Exc.type_error) = err Exc.type_error
caught (err Exc.unbound_local) = err Exc.unbound_local
caught (err Exc.value_error) = err Exc.value_error

unfoldable pub apply_filters : Python → List String → Value → Result Value
apply_filters py [] v = ok v
apply_filters py (f ∷ fs) v = elim (apply_filter py f v) [
  | err raised ↦ err raised
  | ok w ↦ apply_filters py fs w
]

unfoldable pub evaluate_expression : Python → TemplateContext → String → Result Value
evaluate_expression py context expression =
    caught (resolve_variable py (variable_of expression) context)
    >>= apply_filters py (map strip (later_parts (split_at b'|' expression)))

-- The loop of `render_string`: each template is evaluated, and its text is replaced.
unfoldable pub interpolate : Python → TemplateContext → List String → String → Result Value
interpolate py context [] result = ok (Value.str result)
interpolate py context (t ∷ ts) result = elim (evaluate_expression py context t) [
  | err raised ↦ err raised
  | ok v ↦
      let text = filter_string py v in
      interpolate py context ts
        (replace (in_braces "" t) text (replace (in_braces " " t) text result))
]

-- The value of the only template, with its type.
abbrev pub render_pure : Python → TemplateContext → String → List String → Result Value
render_pure py context text [] = interpolate py context [] text
render_pure py context text (t ∷ ts) = evaluate_expression py context t

unfoldable pub render_string : Python → TemplateContext → String → Result Value
render_string py context text =
    if is_pure_template text
    then render_pure py context text (extract_templates text)
    else interpolate py context (extract_templates text) text

-- A text of `render_value`, and the templates that it adds to `templates_found`.
abbrev pub checked : Python → TemplateContext → String → List String → Result (Value × List String)
checked py context text [] = render_string py context text >>= λ v. ok (v, extract_templates text)
checked py context text (e ∷ es) = err template_error

unfoldable pub render_text : Python → TemplateContext → String → Result (Value × List String)
render_text py context text =
    if has_templates text
    then checked py context text (validate_syntax py text)
    else ok (Value.str text, [])

unfoldable mutual
  pub render_value : Python → TemplateContext → Value → Result (Value × List String)
  render_value py context (Value.str text) = render_text py context text
  render_value py context (Value.dict fs) =
      render_fields py context fs >>= λ r. ok (Value.dict r.0, r.1)
  render_value py context (Value.list vs) =
      render_items py context vs >>= λ r. ok (Value.list r.0, r.1)
  render_value py context Value.null = ok (Value.null, [])
  render_value py context (Value.bool b) = ok (Value.bool b, [])
  render_value py context (Value.int n) = ok (Value.int n, [])
  render_value py context (Value.object c fs) = ok (Value.object c fs, [])

  pub render_items : Python → TemplateContext → Items → Result (Items × List String)
  render_items py context nil = ok (nil, [])
  render_items py context (cons v vs) = render_value py context v >>= λ r.
      render_items py context vs >>= λ rest. ok (cons r.0 rest.0, r.1 ++ rest.1)

  pub render_fields : Python → TemplateContext → Fields → Result (Fields × List String)
  render_fields py context end = ok (end, [])
  render_fields py context (field k v fs) = render_value py context v >>= λ r.
      render_fields py context fs >>= λ rest. ok (field k r.0 rest.0, r.1 ++ rest.1)

pub record RenderResult : Type 0 where
  pub value : Value
  pub had_templates : Bool
  pub templates_rendered : List String

abbrev pub is_any : List String → Bool
is_any [] = false
is_any (t ∷ ts) = true

abbrev pub render_result : Value × List String → RenderResult
render_result r = record { value = r.0; had_templates = is_any r.1; templates_rendered = r.1 }

unfoldable pub render : Python → Value → TemplateContext → Result RenderResult
render py template context = render_value py context template >>= λ r. ok (render_result r)

unfoldable pub render_params : Python → Fields → TemplateContext → Result Value
render_params py params context = render py (Value.dict params) context >>= λ r. ok r.value

abbrev pub extract_references : Value → List String
extract_references template = extract_all_references template

unfoldable mutual
  pub validate_value : Python → Value → List String
  validate_value py (Value.str text) = validate_syntax py text
  validate_value py (Value.dict fs) = validate_fields py fs
  validate_value py (Value.list vs) = validate_items py vs
  validate_value py _ = []

  pub validate_items : Python → Items → List String
  validate_items py nil = []
  validate_items py (cons v vs) = validate_value py v ++ validate_items py vs

  pub validate_fields : Python → Fields → List String
  validate_fields py end = []
  validate_fields py (field k v fs) = validate_value py v ++ validate_fields py fs

-- `TemplateEngine.validate`
unfoldable pub validate : Python → Value → List String
validate py template = validate_value py template
