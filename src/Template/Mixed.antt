-- ===== src/Template/Mixed.antt =====
-- What `render_string` makes of a text with literal parts.
use Prim.Native.String.{◌++◌}
use ploston_core.Prelude.{
  ◌≡◌, refl, ap, ◌∙◌, String, true, false, ◌||◌, ◌==◌, List, [], ◌∷◌, mem, eq_iff, eq_refl,
  Bool-cases, inl, inr, arith,
}
use ploston_core.Prelude.Strings.{has_char}
use ploston_core.Errors.{ok}
use ploston_core.Value.{Value}
use ploston_core.Template.{Python, TemplateContext}
use ploston_core.Template.Parser.{in_braces, is_pure_template}
use ploston_core.Template.Filters.{filter_string}
use ploston_core.Template.Render.{evaluate_expression, interpolate, render_string}
use ploston_core.Template.Braces.{IsExpression, is_expression-IsExpression}
use ploston_core.Template.Pieces.{
  Piece, literal, template, shown, expressions, are_plain, filled, replace-fills,
}
use ploston_core.Template.Found.{extract_templates-shown}

are_plain-IsExpression :
    (ps : List Piece) (t : String)
    → are_plain ps ≡ true
    → mem t (expressions ps) ≡ true
    → IsExpression t
unfolding are_plain expressions mem
are_plain-IsExpression [] t h m = cc
are_plain-IsExpression (literal s ∷ ps) t h m = are_plain-IsExpression ps t (ground arith) m
are_plain-IsExpression (template u ∷ ps) t h m = elim (Bool-cases (u == t)) [
  | inl same ↦ rw (← ((eq_iff u t).0 same)) (is_expression-IsExpression u (ground arith))
  | inr other ↦ are_plain-IsExpression ps t (ground arith) (ground arith)
]

-- The expressions that are filled in after those of `ts`.
filled_after : List String → List String → List String
filled_after [] done = done
filled_after (t ∷ ts) done = filled_after ts (t ∷ done)

mem-filled_after :
    (u : String) (ts done : List String)
    → (mem u ts || mem u done) ≡ true
    → mem u (filled_after ts done) ≡ true
unfolding filled_after mem
mem-filled_after u [] done h = h
mem-filled_after u (t ∷ ts) done h = mem-filled_after u ts (t ∷ done) (ground arith)

-- Where all expressions are filled in, the text has a value for each.
shown-filled :
    (value : String → String) (ps : List Piece) (done : List String)
    → ((u : String) → mem u (expressions ps) ≡ true → mem u done ≡ true)
    → shown (filled value done) ps ≡ shown value ps
unfolding shown expressions mem
shown-filled value [] done h = refl
shown-filled value (literal s ∷ ps) done h = ap (λ r. s ++ r) (shown-filled value ps done h)
shown-filled value (template t ∷ ps) done h =
    rw (h t (rw (eq_refl t) refl))
      (ap (λ r. value t ++ r) (shown-filled value ps done (λ u m. h u (ground arith))))

module _ (py : Python) (context : TemplateContext) (value : String → Value)
    (free : (t : String) → has_char b'{' (filter_string py (value t)) ≡ false) where
  abbrev text_of : String → String
  text_of t = filter_string py (value t)

  interpolate-fills :
      (ps : List Piece)
      → are_plain ps ≡ true
      → (ts done : List String) → ((t : String) → mem t ts ≡ true → IsExpression t)
      → ((t : String) → mem t ts ≡ true → evaluate_expression py context t ≡ ok (value t))
      → interpolate py context ts (shown (filled text_of done) ps)
        ≡ ok (Value.str (shown (filled text_of (filled_after ts done)) ps))
  unfolding interpolate filled_after
  interpolate-fills ps h [] done es vs = refl
  interpolate-fills ps h (t ∷ ts) done es vs =
      let here = first t ts in
      rw (interpolate, vs t here)
        (rw (replace-fills text_of free t (es t here) done ps h) (
          interpolate-fills ps h ts (t ∷ done) (λ u m. es u (later t u ts m))
            (λ u m. vs u (later t u ts m))))
    where
      first : (t : String) (ts : List String) → mem t (t ∷ ts) ≡ true
      first t ts = unfold mem in rw (eq_refl t) refl

      later : (t u : String) (ts : List String) → mem u ts ≡ true → mem u (t ∷ ts) ≡ true
      later t u ts m = unfold mem in ground arith

-- A text that is no pure template, of literals without "{" and of expressions between "{{ " and
-- " }}" that evaluate to values whose texts hold no "{": `render_string` returns the text in which
-- each expression is replaced by the text of its value, wherever and however often it stands.
pub render_string-fills :
    (py : Python) (context : TemplateContext) (value : String → Value) (ps : List Piece)
    → are_plain ps ≡ true
    → is_pure_template (shown (in_braces " ") ps) ≡ false
    → ((t : String) → has_char b'{' (filter_string py (value t)) ≡ false)
    → ((t : String)
        → mem t (expressions ps) ≡ true
        → evaluate_expression py context t ≡ ok (value t))
    → render_string py context (shown (in_braces " ") ps)
      ≡ ok (Value.str (shown (λ t. filter_string py (value t)) ps))
unfolding render_string
render_string-fills py context value ps h mixed free vs =
    let text = λ (t : String). filter_string py (value t) in
    rw mixed (
      rw (extract_templates-shown ps h) (
        unfold mem in
        interpolate-fills py context value free ps h (expressions ps) []
          (λ t m. are_plain-IsExpression ps t h m) vs
        ∙ ap (λ s. ok (Value.str s))
            (shown-filled text ps (filled_after (expressions ps) [])
              (λ u m. mem-filled_after u (expressions ps) [] (rw m refl)))))
