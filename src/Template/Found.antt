-- ===== src/Template/Found.antt =====
-- The templates that are found in a text of pieces.
use Prim.Native.Char.{Char, code}
use Prim.Native.String.{◌++◌}
use text.Mathlib.TextLemmas.{nil-append, cons-append}
use ploston_core.Prelude.{
  ℕ, suc, ◌+◌, ◌-◌, ◌≡◌, refl, ap, ◌∙◌, String, Bool, true, false, ◌&&◌, not, none, some, List, [],
  ◌∷◌, map, nat_eq, arith,
}
use ploston_core.Prelude.Strings.{is_space, lstrip, rstrip, strip, has_char, starts_with, size_of}
use ploston_core.Template.Parser.{closing, match_at, find_from, extract_templates, in_braces}
use ploston_core.Template.Replaced.{cons}
use ploston_core.Template.Braces.{
  free_head, free_tail, ending, inside, inside-append, braces-append, starts_solid, is_expression,
  IsExpression, is_expression-IsExpression,
}
use ploston_core.Template.Pieces.{Piece, literal, template, shown, expressions, are_plain}

match_at-none : (c : Char) (s : String) → nat_eq (code c) b'{' ≡ false → match_at (cons c s) ≡ none
unfolding match_at
match_at-none c String.[] h = refl
match_at-none c (String.◌∷◌ d String.[]) h = refl
match_at-none c (String.◌∷◌ d (String.◌∷◌ e s)) h = rw h refl

find_from-none :
    (c : Char) (s : String) → match_at (cons c s) ≡ none → find_from 0 (cons c s) ≡ find_from 0 s
unfolding find_from
find_from-none c s h = rw (find_from, h) refl

find_from-some :
    (c : Char) (s g : String) (n : ℕ)
    → match_at (cons c s) ≡ some (g, n)
    → find_from 0 (cons c s) ≡ g ∷ find_from (n - 1) s
unfolding find_from
find_from-some c s g n h = rw (find_from, h) refl

find_from-free : (s r : String) → has_char b'{' s ≡ false → find_from 0 (s ++ r) ≡ find_from 0 r
find_from-free String.[] r h = rw (nil-append r) refl
find_from-free (String.◌∷◌ c s) r h = rw (cons-append c s r) (
    find_from-none c (s ++ r) (match_at-none c (s ++ r) (free_head b'{' c s h))
    ∙ find_from-free s r (free_tail b'{' c s h))

find_from-skip : (s r : String) → find_from (size_of s) (s ++ r) ≡ find_from 0 r
unfolding size_of find_from
find_from-skip String.[] r = rw (nil-append r) refl
find_from-skip (String.◌∷◌ c s) r = rw (cons-append c s r) (find_from-skip s r)

size_of-append : (s t : String) → size_of (s ++ t) ≡ size_of s + size_of t
unfolding size_of
size_of-append String.[] t = rw (nil-append t) (omega arith)
size_of-append (String.◌∷◌ c s) t = rw (cons-append c s t) (omega (arith, size_of-append s t))

closing-ending :
    (t r : String)
    → has_char b'}' t ≡ false
    → has_char 10 t ≡ false
    → closing (t ++ ending r) ≡ some (t ++ " ", suc (suc (suc (size_of t))))
unfolding closing size_of starts_with
closing-ending String.[] r h n = rw (nil-append (ending r)) refl
closing-ending (String.◌∷◌ c t) r h n =
    let ne = free_head b'}' c t h in
    let nl = free_head 10 c t n in
    rw (cons-append c t (ending r), cons-append c t " ")
      (rw (closing-ending t r (free_tail b'}' c t h) (free_tail 10 c t n), nl) (ground arith))

matched :
    (t r : String)
    → IsExpression t
    → match_at (cons "{" (cons "{" (cons " " (t ++ ending r))))
      ≡ some (cons " " (t ++ " "), size_of t + 6)
unfolding match_at
matched t r h = rw (closing-ending t r h.unclosed h.one_line) (ground arith)

size_of-inside : (t : String) → size_of t + 6 - 1 ≡ size_of (cons "{" (inside t))
unfolding size_of
size_of-inside t = omega (arith, size_of-append t " }}")

past_match :
    (t r : String)
    → find_from (size_of t + 6 - 1) (cons "{" (cons " " (t ++ ending r))) ≡ find_from 0 r
past_match t r =
    rw (← (inside-append t r), ← (cons-append "{" (inside t) r), size_of-inside t)
      (find_from-skip (cons "{" (inside t)) r)

find_from-template :
    (t r : String)
    → IsExpression t
    → find_from 0 (in_braces " " t ++ r) ≡ cons " " (t ++ " ") ∷ find_from 0 r
find_from-template t r h =
    rw (braces-append t r, inside-append t r)
      (find_from-some "{" (cons "{" (cons " " (t ++ ending r))) (cons " " (t ++ " "))
          (size_of t + 6) (matched t r h)
        ∙ ap (λ ts. cons " " (t ++ " ") ∷ ts) (past_match t r))

lstrip-solid : (t s : String) → starts_solid t ≡ true → lstrip (t ++ s) ≡ t ++ s
unfolding starts_solid lstrip
lstrip-solid String.[] s h = cc
lstrip-solid (String.◌∷◌ c t) s h = rw (cons-append c t s) (ground arith)

rstrip-append : (s : String) → rstrip (s ++ " ") ≡ rstrip s
unfolding rstrip is_space
rstrip-append String.[] = refl
rstrip-append (String.◌∷◌ c s) = rw (cons-append c s " ") (rw (rstrip-append s) refl)

strip-spaced : (t : String) → IsExpression t → strip (cons " " (t ++ " ")) ≡ t
unfolding strip
strip-spaced t h =
    unfold lstrip is_space in rw (lstrip-solid t " " h.solid) (rstrip-append t ∙ h.stripped)

both : (a b : Bool) → (a && b) ≡ true → (a ≡ true) × (b ≡ true)
both a b h = ground arith

-- The expressions are found in their order.
pub extract_templates-shown :
    (ps : List Piece)
    → are_plain ps ≡ true
    → extract_templates (shown (in_braces " ") ps) ≡ expressions ps
unfolding shown are_plain expressions extract_templates
extract_templates-shown [] h = unfold find_from in refl
extract_templates-shown (literal s ∷ ps) h =
    let (hs, rest) = both (not (has_char b'{' s)) (are_plain ps) h in
    ap (map strip) (find_from-free s (shown (in_braces " ") ps) (ground arith))
    ∙ extract_templates-shown ps rest
extract_templates-shown (template t ∷ ps) h =
    let (ht, rest) = both (is_expression t) (are_plain ps) h in
    let e = is_expression-IsExpression t ht in
    ap (map strip) (find_from-template t (shown (in_braces " ") ps) e)
    ∙ rw (strip-spaced t e) (ap (λ ts. t ∷ ts) (extract_templates-shown ps rest))
