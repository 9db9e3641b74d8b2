-- ===== src/Template/Replaced.antt =====
-- What `str.replace` does to a text of a template.
use Prim.Native.Char.{Char}
use Prim.Native.String.{◌++◌}
use text.Mathlib.TextLemmas.{nil-append, cons-append}
use ploston_core.Prelude.{◌-◌, ◌≡◌, refl, ap, ◌∙◌, String, true, false, arith}
use ploston_core.Prelude.Texts.{join}
use ploston_core.Prelude.Strings.{starts_with, has_char, size_of, replace_from}
use ploston_core.Template.Parser.{in_braces}

abbrev pub cons : Char → String → String
cons = String.◌∷◌

pub single : (c : Char) (s : String) → cons c "" ++ s ≡ cons c s
single c s = cons-append c "" s ∙ ap (cons c) (nil-append s)

pub opened : (t : String) → in_braces " " t ≡ cons "{" (cons "{" (cons " " (t ++ " }}")))
unfolding join
opened t = simp (nil-append) (
    cons-append "{" "{" (" " ++ (t ++ " }}"))
    ∙ ap (cons "{") (single "{" (" " ++ (t ++ " }}")) ∙ ap (cons "{") (single " " (t ++ " }}"))))

pub tight : (t : String) → in_braces "" t ≡ cons "{" (cons "{" (t ++ "}}"))
unfolding join
tight t =
    simp (nil-append) (cons-append "{" "{" (t ++ "}}") ∙ ap (cons "{") (single "{" (t ++ "}}")))

replace_from-skip :
    (old new s r : String) → replace_from (size_of s) old new (s ++ r) ≡ replace_from 0 old new r
unfolding size_of replace_from
replace_from-skip old new String.[] r = rw (nil-append r) refl
replace_from-skip old new (String.◌∷◌ c s) r =
    rw (cons-append c s r) (replace_from-skip old new s r)

starts_with-append : (s r : String) → starts_with (s ++ r) s ≡ true
unfolding starts_with
starts_with-append String.[] r = refl
starts_with-append (String.◌∷◌ c s) r =
    rw (cons-append c s r) (rw (starts_with-append s r) (ground arith))

size_of-cons : (c : Char) (s : String) → size_of (cons c s) - 1 ≡ size_of s
unfolding size_of
size_of-cons c s = omega arith

-- The text itself is replaced.
pub replace_from_hit :
    (c : Char) (old new r : String)
    → replace_from 0 (cons c old) new (cons c old ++ r) ≡ new ++ replace_from 0 (cons c old) new r
replace_from_hit c old new r =
    let hit = rw (cons-append c old r) at (starts_with-append (cons c old) r) in
    rw (cons-append c old r) (
      unfold replace_from in
      rw (hit, size_of-cons c old) (ap (λ s. new ++ s) (replace_from-skip (cons c old) new old r)))

-- A character at which the text does not begin stays.
pub replace_from_miss :
    (c : Char) (old new r : String)
    → starts_with (cons c r) old ≡ false
    → replace_from 0 old new (cons c r) ≡ cons c (replace_from 0 old new r)
unfolding replace_from
replace_from_miss c old new r h = rw h refl

-- A text without a brace stays.
pub replace_from_free :
    (s old new r : String)
    → has_char b'{' s ≡ false
    → replace_from 0 (cons "{" old) new (s ++ r) ≡ s ++ replace_from 0 (cons "{" old) new r
unfolding has_char
replace_from_free String.[] old new r h =
    rw (nil-append r, nil-append (replace_from 0 (cons "{" old) new r)) refl
replace_from_free (String.◌∷◌ c s) old new r h =
    rw (cons-append c s r, cons-append c s (replace_from 0 (cons "{" old) new r))
      (replace_from_miss c (cons "{" old) new (s ++ r) (unfold starts_with in ground arith)
        ∙ ap (cons c) (replace_from_free s old new r (ground arith)))
