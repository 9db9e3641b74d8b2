-- ===== src/Template/Agreement.antt =====
-- What `render` reads of the context: the references that `extract_references` lists.
use ploston_core.Prelude.{
  ◌≡◌, refl, String, true, List, [], ◌∷◌, ◌++◌, map, mem, mem-append, eq_refl, if◌then◌else◌, ◌⊎◌,
  inl, inr, Bool-cases, arith,
}
use ploston_core.Errors.{Exc, Result, ok, err}
use ploston_core.Value.{Value, Items, nil, cons, Fields, end, field}
use ploston_core.Template.{Python, TemplateContext}
use ploston_core.Prelude.Strings.{replace}
use ploston_core.Template.Filters.{filter_string}
use ploston_core.Template.Parser.{
  in_braces, extract_templates, has_templates, is_pure_template, variable_of,
  extract_all_references, references_of_items, references_of_fields, validate_syntax,
}
use ploston_core.Template.Variables.{resolve_variable}
use ploston_core.Template.Render.{
  evaluate_expression, interpolate, render_pure, render_string, checked, render_text, render_value,
  render_items, render_fields, render, extract_references,
}

-- Two contexts in which the same references have the same values, or the same exceptions.
abbrev pub Agree : Python → List String → TemplateContext → TemplateContext → Type 0
Agree py refs c d =
    (r : String) → mem r refs ≡ true → resolve_variable py r c ≡ resolve_variable py r d

Result-cases : (r : Result Value) → ((e : Exc) × (r ≡ err e)) ⊎ ((v : Value) × (r ≡ ok v))
Result-cases (err e) = inl (e, refl)
Result-cases (ok v) = inr (v, refl)

module _ (py : Python) (c d : TemplateContext) where
  Agree-head :
      (r : String) (rs : List String)
      → Agree py (r ∷ rs) c d
      → resolve_variable py r c ≡ resolve_variable py r d
  Agree-head r rs h = h r (unfold mem in rw (eq_refl r) refl)

  Agree-tail : (r : String) (rs : List String) → Agree py (r ∷ rs) c d → Agree py rs c d
  unfolding mem
  Agree-tail r rs h q m = h q (ground arith)

  Agree-append_left : (rs qs : List String) → Agree py (rs ++ qs) c d → Agree py rs c d
  Agree-append_left rs qs h r m = h r (rw (mem-append r rs qs, m) refl)

  Agree-append_right : (rs qs : List String) → Agree py (rs ++ qs) c d → Agree py qs c d
  Agree-append_right rs qs h r m = h r (rw (mem-append r rs qs, m) (ground arith))

  evaluate_expression-agrees :
      (t : String)
      → resolve_variable py (variable_of t) c ≡ resolve_variable py (variable_of t) d
      → evaluate_expression py c t ≡ evaluate_expression py d t
  unfolding evaluate_expression
  evaluate_expression-agrees t h = rw h refl

  interpolate-agrees :
      (ts : List String) (result : String)
      → Agree py (map variable_of ts) c d
      → interpolate py c ts result ≡ interpolate py d ts result
  unfolding interpolate
  interpolate-agrees [] result h = refl
  interpolate-agrees (t ∷ ts) result h =
      let rest = Agree-tail (variable_of t) (map variable_of ts) h in
      let first =
        evaluate_expression-agrees t (Agree-head (variable_of t) (map variable_of ts) h) in
      elim (Result-cases (evaluate_expression py d t)) [
        | inl (raised, e) ↦ rw (interpolate, first, e) refl
        | inr (v, e) ↦
            rw (interpolate, first, e)
              (interpolate-agrees ts
                (replace (in_braces "" t) (filter_string py v)
                  (replace (in_braces " " t) (filter_string py v) result))
                rest)
      ]

  render_string-agrees :
      (text : String)
      → Agree py (map variable_of (extract_templates text)) c d
      → render_string py c text ≡ render_string py d text
  unfolding render_string
  render_string-agrees text h = elim (Bool-cases (is_pure_template text)) [
    | inr mixed ↦ rw mixed (interpolate-agrees (extract_templates text) text h)
    | inl pure ↦ rw pure (only (extract_templates text) h)
  ]
    where
      only :
          (ts : List String)
          → Agree py (map variable_of ts) c d
          → render_pure py c text ts ≡ render_pure py d text ts
      only [] h = interpolate-agrees [] text h
      only (t ∷ ts) h =
          evaluate_expression-agrees t (Agree-head (variable_of t) (map variable_of ts) h)

  render_text-agrees :
      (text : String)
      → Agree py (map variable_of (extract_templates text)) c d
      → render_text py c text ≡ render_text py d text
  unfolding render_text
  render_text-agrees text h = by_errors (validate_syntax py text)
    where
      by_errors :
          (es : List String)
          → (if has_templates text then checked py c text es else ok (Value.str text, []))
            ≡ (if has_templates text then checked py d text es else ok (Value.str text, []))
      by_errors (e ∷ es) = refl
      by_errors [] = rw (render_string-agrees text h) refl

  mutual
    unfolding render_value extract_all_references

    render_value-agrees :
        (v : Value)
        → Agree py (extract_all_references v) c d
        → render_value py c v ≡ render_value py d v
    render_value-agrees (Value.str text) h = render_text-agrees text h
    render_value-agrees (Value.dict fs) h = rw (render_fields-agrees fs h) refl
    render_value-agrees (Value.list vs) h = rw (render_items-agrees vs h) refl
    render_value-agrees Value.null h = refl
    render_value-agrees (Value.bool b) h = refl
    render_value-agrees (Value.int n) h = refl
    render_value-agrees (Value.object k fs) h = refl

    render_items-agrees :
        (vs : Items)
        → Agree py (references_of_items vs) c d
        → render_items py c vs ≡ render_items py d vs
    render_items-agrees nil h = refl
    render_items-agrees (cons v vs) h =
        rw
          (
            render_value-agrees v
                (Agree-append_left (extract_all_references v) (references_of_items vs) h),
            render_items-agrees vs
                (Agree-append_right (extract_all_references v) (references_of_items vs) h),
          )
          refl

    render_fields-agrees :
        (fs : Fields)
        → Agree py (references_of_fields fs) c d
        → render_fields py c fs ≡ render_fields py d fs
    render_fields-agrees end h = refl
    render_fields-agrees (field k v fs) h =
        rw
          (
            render_value-agrees v
                (Agree-append_left (extract_all_references v) (references_of_fields fs) h),
            render_fields-agrees fs
                (Agree-append_right (extract_all_references v) (references_of_fields fs) h),
          )
          refl

-- `render` of a value has the same result or the same exception in two contexts in which each of the
-- references that `extract_references` lists for it resolves to the same value or exception.
pub render-agrees :
    (py : Python) (template : Value) (c d : TemplateContext)
    → Agree py (extract_references template) c d
    → render py template c ≡ render py template d
unfolding render
render-agrees py template c d h = rw (render_value-agrees py c d template h) refl
