-- ===== src/Template/Pieces.antt =====
-- Texts of templates by their pieces: literal texts, and expressions in braces.
use Prim.Native.String.{◌++◌}
use ploston_core.Prelude.{
  ◌≡◌, refl, ap, ◌∙◌, String, Bool, true, false, ◌&&◌, not, ◌==◌, List, [], ◌∷◌, mem, if◌then◌else◌,
  eq_iff, Bool-cases, inl, inr, arith,
}
use ploston_core.Prelude.Strings.{has_char, replace_from, replace}
use ploston_core.Template.Parser.{in_braces}
use ploston_core.Template.Braces.{
  is_expression, IsExpression, is_expression-IsExpression, replace_template, replace_template_other,
  replace_tight, replace_free, replace_free_tight,
}

pub data Piece : Type 0 where
  literal template : String → Piece

-- The text, with something for each expression.
unfoldable pub shown : (String → String) → List Piece → String
shown f [] = ""
shown f (literal s ∷ ps) = s ++ shown f ps
shown f (template t ∷ ps) = f t ++ shown f ps

unfoldable pub expressions : List Piece → List String
expressions [] = []
expressions (literal s ∷ ps) = expressions ps
expressions (template t ∷ ps) = t ∷ expressions ps

-- No literal has an opening brace, and each template holds an expression.
unfoldable pub are_plain : List Piece → Bool
are_plain [] = true
are_plain (literal s ∷ ps) = not (has_char b'{' s) && are_plain ps
are_plain (template t ∷ ps) = is_expression t && are_plain ps

-- Some expressions are replaced already.
abbrev pub filled : (String → String) → List String → String → String
filled value done t = if mem t done then value t else in_braces " " t

not_eq_sym : (s t : String) → (s == t) ≡ false → (t == s) ≡ false
not_eq_sym s t h = ground (arith, eq_iff s t, eq_iff t s)

module _ (value : String → String) (free : (t : String) → has_char b'{' (value t) ≡ false)
    (t : String) (ht : IsExpression t) where
  replace-filled :
      (done : List String) (u r : String)
      → IsExpression u
      → replace_from 0 (in_braces " " t) (value t) (filled value done u ++ r)
        ≡ filled value (t ∷ done) u ++ replace_from 0 (in_braces " " t) (value t) r
  unfolding mem
  replace-filled done u r hu = elim (Bool-cases (t == u)) [
    | inl same ↦ elim (Bool-cases (mem u done)) [
      | inl old ↦ rw (same, old) (replace_free (value u) t (value t) r (free u))
      | inr new ↦ rw (same, new) (rw (← ((eq_iff t u).0 same)) (replace_template t (value t) r))
    ]
    | inr other ↦ elim (Bool-cases (mem u done)) [
      | inl old ↦ rw (other, old) (replace_free (value u) t (value t) r (free u))
      | inr new ↦
          rw (other, new) (replace_template_other t u (value t) r ht hu (not_eq_sym t u other))
    ]
  ]

  replace-filled_tight :
      (done : List String) (u r : String)
      → IsExpression u
      → replace_from 0 (in_braces "" t) (value t) (filled value done u ++ r)
        ≡ filled value done u ++ replace_from 0 (in_braces "" t) (value t) r
  replace-filled_tight done u r hu = elim (Bool-cases (mem u done)) [
    | inl old ↦ rw old (replace_free_tight (value u) t (value t) r (free u))
    | inr new ↦ rw new (replace_tight t u (value t) r ht hu)
  ]

  both : (a b : Bool) → (a && b) ≡ true → (a ≡ true) × (b ≡ true)
  both a b h = ground arith

  replace-shown :
      (done : List String) (ps : List Piece)
      → are_plain ps ≡ true
      → replace_from 0 (in_braces " " t) (value t) (shown (filled value done) ps)
        ≡ shown (filled value (t ∷ done)) ps
  unfolding shown are_plain
  replace-shown done [] h = unfold replace_from in refl
  replace-shown done (literal s ∷ ps) h =
      let (hs, rest) = both (not (has_char b'{' s)) (are_plain ps) h in
      replace_free s t (value t) (shown (filled value done) ps) (ground arith)
      ∙ ap (λ r. s ++ r) (replace-shown done ps rest)
  replace-shown done (template u ∷ ps) h =
      let (hu, rest) = both (is_expression u) (are_plain ps) h in
      replace-filled done u (shown (filled value done) ps) (is_expression-IsExpression u hu)
      ∙ ap (λ r. filled value (t ∷ done) u ++ r) (replace-shown done ps rest)

  replace-shown_tight :
      (done : List String) (ps : List Piece)
      → are_plain ps ≡ true
      → replace_from 0 (in_braces "" t) (value t) (shown (filled value done) ps)
        ≡ shown (filled value done) ps
  unfolding shown are_plain
  replace-shown_tight done [] h = unfold replace_from in refl
  replace-shown_tight done (literal s ∷ ps) h =
      let (hs, rest) = both (not (has_char b'{' s)) (are_plain ps) h in
      replace_free_tight s t (value t) (shown (filled value done) ps) (ground arith)
      ∙ ap (λ r. s ++ r) (replace-shown_tight done ps rest)
  replace-shown_tight done (template u ∷ ps) h =
      let (hu, rest) = both (is_expression u) (are_plain ps) h in
      replace-filled_tight done u (shown (filled value done) ps) (is_expression-IsExpression u hu)
      ∙ ap (λ r. filled value done u ++ r) (replace-shown_tight done ps rest)

  -- The two calls of `replace` for one expression fill it in everywhere.
  pub replace-fills :
      (done : List String) (ps : List Piece)
      → are_plain ps ≡ true
      → replace
          (in_braces "" t)
          (value t)
          (replace (in_braces " " t) (value t) (shown (filled value done) ps))
        ≡ shown (filled value (t ∷ done)) ps
  unfolding replace
  replace-fills done ps h = rw (replace-shown done ps h) (replace-shown_tight (t ∷ done) ps h)
