-- ===== src/Template/Braces.antt =====
-- What `str.replace` does to an expression in braces.
use Prim.Native.Char.{Char, code}
use Prim.Native.String.{◌++◌}
use text.Mathlib.TextEquality.{Char-path}
use text.Mathlib.TextLemmas.{nil-append, cons-append, append_assoc}
use ploston_core.Prelude.{
  ℕ, ◌≡◌, refl, sym, ap, ◌∙◌, String, Bool, true, false, ◌&&◌, ◌||◌, ◌==◌, not, nat_eq, arith,
  eq_iff, eq_refl, Bool-cases, inl, inr,
}
use ploston_core.Prelude.Strings.{is_space, rstrip, starts_with, has_char, replace_from}
use ploston_core.Template.Parser.{in_braces}
use ploston_core.Template.Replaced.{
  cons, single, opened, tight, replace_from_hit, replace_from_miss, replace_from_free,
}

-- Whether a text begins with something that is no space.
unfoldable pub starts_solid : String → Bool
starts_solid String.[] = false
starts_solid (String.◌∷◌ c s) = not (is_space (code c))

pub free_head :
    (c : ℕ) (d : Char) (s : String) → has_char c (cons d s) ≡ false → nat_eq (code d) c ≡ false
unfolding has_char
free_head c d s h = ground arith

pub free_tail :
    (c : ℕ) (d : Char) (s : String) → has_char c (cons d s) ≡ false → has_char c s ≡ false
unfolding has_char
free_tail c d s h = ground arith

abbrev pub ending : String → String
ending r = cons " " (cons "}" (cons "}" r))

brace_first :
    (t r : String) → has_char b'}' t ≡ false → starts_with (cons "}" r) (t ++ " }}") ≡ false
unfolding starts_with
brace_first String.[] r h = refl
brace_first (String.◌∷◌ c t) r h =
    rw (cons-append c t " }}") (let ne = free_head b'}' c t h in ground arith)

brace_wanted : (u r : String) → has_char b'}' u ≡ false → starts_with (u ++ ending r) "}}" ≡ false
unfolding starts_with
brace_wanted String.[] r h = rw (nil-append (ending r)) refl
brace_wanted (String.◌∷◌ c u) r h =
    rw (cons-append c u (ending r)) (let ne = free_head b'}' c u h in ground arith)

cons_eq :
    (d c : Char) (u t : String)
    → nat_eq (code c) (code d) ≡ true
    → (cons d u == cons c t) ≡ false
    → (u == t) ≡ false
cons_eq d c u t same ne = elim (Bool-cases (u == t)) [
  | inr other ↦ other
  | inl eq ↦
      let chars = Char-path d c (ground arith) in
      let all = (eq_iff (cons d u) (cons c t)).1 (cc (chars, (eq_iff u t).0 eq)) in cc (all, ne)
]

-- Of two texts without a closing brace, that end before " }}", only the same begin alike.
starts_with_other :
    (u t r : String)
    → has_char b'}' u ≡ false
    → has_char b'}' t ≡ false
    → (u == t) ≡ false
    → starts_with (u ++ ending r) (t ++ " }}") ≡ false
unfolding starts_with
starts_with_other String.[] String.[] r hu ht ne = cc (eq_refl "", ne)
starts_with_other String.[] (String.◌∷◌ c t) r hu ht ne =
    rw (nil-append (ending r), cons-append c t " }}")
      (rw (brace_first t (cons "}" r) (free_tail b'}' c t ht)) (ground arith))
starts_with_other (String.◌∷◌ d u) String.[] r hu ht ne =
    rw (nil-append " }}", cons-append d u (ending r))
      (rw (brace_wanted u r (free_tail b'}' d u hu)) (ground arith))
starts_with_other (String.◌∷◌ d u) (String.◌∷◌ c t) r hu ht ne =
    rw (cons-append d u (ending r), cons-append c t " }}")
      (elim (Bool-cases (nat_eq (code c) (code d))) [
        | inr apart ↦ rw apart refl
        | inl same ↦
            rw
              (starts_with_other u t r (free_tail b'}' d u hu) (free_tail b'}' c t ht)
                (cons_eq d c u t same ne))
              (ground arith)
      ])

has_char-append : (c : ℕ) (s t : String) → has_char c (s ++ t) ≡ (has_char c s || has_char c t)
unfolding has_char
has_char-append c String.[] t = rw (nil-append t) refl
has_char-append c (String.◌∷◌ d s) t =
    rw (cons-append d s t) (rw (has_char-append c s t) (ground arith))

-- What follows the opening braces of a template.
abbrev pub inside : String → String
inside u = cons " " (u ++ " }}")

inside_free : (u : String) → has_char b'{' u ≡ false → has_char b'{' (inside u) ≡ false
unfolding has_char
inside_free u h = rw (has_char-append b'{' u " }}") (rw h refl)

pub inside-append : (u r : String) → inside u ++ r ≡ cons " " (u ++ ending r)
inside-append u r =
    cons-append " " (u ++ " }}") r
    ∙ ap (cons " ") (
        append_assoc u " }}" r
        ∙ ap (λ s. u ++ s)
            (cons-append " " "}}" r
              ∙ ap (cons " ") (cons-append "}" "}" r ∙ ap (cons "}") (single "}" r))))

pub braces-append : (u r : String) → in_braces " " u ++ r ≡ cons "{" (cons "{" (inside u ++ r))
braces-append u r =
    ap (λ s. s ++ r) (opened u)
    ∙ cons-append "{" (cons "{" (inside u)) r
    ∙ ap (cons "{") (cons-append "{" (inside u) r)

-- A template that does not match stays.
keep_template :
    (x new u r : String)
    → starts_with (cons " " (u ++ ending r)) x ≡ false
    → has_char b'{' u ≡ false
    → replace_from 0 (cons "{" (cons "{" x)) new (in_braces " " u ++ r)
      ≡ in_braces " " u ++ replace_from 0 (cons "{" (cons "{" x)) new r
keep_template x new u r miss free =
    let old = cons "{" (cons "{" x) in
    rw (braces-append u r) (
      replace_from_miss "{" old new (cons "{" (inside u ++ r))
        (rw (inside-append u r) (unfold starts_with in miss))
      ∙ ap (cons "{") (
          replace_from_miss "{" old new (inside u ++ r)
            (rw (inside-append u r) (unfold starts_with in refl))
          ∙ ap (cons "{") (replace_from_free (inside u) (cons "{" x) new r (inside_free u free)))
      ∙ sym (braces-append u (replace_from 0 old new r)))

-- An expression as workflows write it: without braces and newlines, and without spaces around it.
unfoldable pub is_expression : String → Bool
is_expression t =
    starts_solid t
    && (rstrip t == t && (not (has_char b'{' t) && (not (has_char b'}' t) && not (has_char 10 t))))

pub record IsExpression (t : String) : Type 0 where
  pub solid : starts_solid t ≡ true
  pub stripped : rstrip t ≡ t
  pub unopened : has_char b'{' t ≡ false
  pub unclosed : has_char b'}' t ≡ false
  pub one_line : has_char 10 t ≡ false

pub is_expression-IsExpression : (t : String) → is_expression t ≡ true → IsExpression t
unfolding is_expression
is_expression-IsExpression t h =
    let (a, b, c, d, e) =
      parts (starts_solid t) (rstrip t == t) (has_char b'{' t) (has_char b'}' t) (has_char 10 t)
        h in
    record {
      solid = a;
      stripped = (eq_iff (rstrip t) t).0 b;
      unopened = c;
      unclosed = d;
      one_line = e;
    }
  where
    parts :
        (a b c d e : Bool)
        → (a && (b && (not c && (not d && not e)))) ≡ true
        → (a ≡ true) × (b ≡ true) × (c ≡ false) × (d ≡ false) × (e ≡ false)
    parts a b c d e h = ground arith

pub replace_template :
    (t v r : String)
    → replace_from 0 (in_braces " " t) v (in_braces " " t ++ r)
      ≡ v ++ replace_from 0 (in_braces " " t) v r
replace_template t v r = rw (opened t) (replace_from_hit "{" (cons "{" (inside t)) v r)

pub replace_template_other :
    (t u v r : String)
    → IsExpression t
    → IsExpression u
    → (u == t) ≡ false
    → replace_from 0 (in_braces " " t) v (in_braces " " u ++ r)
      ≡ in_braces " " u ++ replace_from 0 (in_braces " " t) v r
replace_template_other t u v r ht hu ne = rw (opened t) (
    keep_template (inside t) v u r
      (unfold starts_with in starts_with_other u t r hu.unclosed ht.unclosed ne) hu.unopened)

not_blank : (c : ℕ) → is_space c ≡ false → nat_eq c 32 ≡ false
unfolding is_space
not_blank c h = ground arith

solid_differs : (t x y : String) → starts_solid t ≡ true → starts_with (cons " " x) (t ++ y) ≡ false
unfolding starts_solid starts_with
solid_differs String.[] x y h = cc
solid_differs (String.◌∷◌ c t) x y h =
    rw (cons-append c t y) (let ne = not_blank (code c) (ground arith) in ground arith)

pub replace_tight :
    (t u v r : String)
    → IsExpression t
    → IsExpression u
    → replace_from 0 (in_braces "" t) v (in_braces " " u ++ r)
      ≡ in_braces " " u ++ replace_from 0 (in_braces "" t) v r
replace_tight t u v r ht hu =
    rw (tight t)
      (keep_template (t ++ "}}") v u r (solid_differs t (u ++ ending r) "}}" ht.solid) hu.unopened)

pub replace_free :
    (s t v r : String)
    → has_char b'{' s ≡ false
    → replace_from 0 (in_braces " " t) v (s ++ r) ≡ s ++ replace_from 0 (in_braces " " t) v r
replace_free s t v r h = rw (opened t) (replace_from_free s (cons "{" (inside t)) v r h)

pub replace_free_tight :
    (s t v r : String)
    → has_char b'{' s ≡ false
    → replace_from 0 (in_braces "" t) v (s ++ r) ≡ s ++ replace_from 0 (in_braces "" t) v r
replace_free_tight s t v r h = rw (tight t) (replace_from_free s (cons "{" (t ++ "}}")) v r h)
