-- ===== src/Prelude/Strings.antt =====
-- Python's methods on texts, character by character.
use Prim.Native.Char.{code}
use Prim.Native.Nat.{ℕ, zero, suc, ◌-◌}
use Prim.Native.String.{String}
use Prim.Native.String
use mathlib.Core.Bool.{Bool, true, false, ◌&&◌, ◌||◌}
use mathlib.Core.List.{List, [], ◌∷◌}
use text.Mathlib.Text.{◌==◌}
use ploston_core.Prelude.Tests.{leb, nat_eq, if◌then◌else◌}

-- `str.isspace` of a character.
unfoldable pub is_space : ℕ → Bool
is_space c =
    leb 9 c && leb c 13
    || leb 28 c && leb c 32
    || nat_eq c 133
    || nat_eq c 160
    || nat_eq c 5760
    || leb 8192 c && leb c 8202
    || nat_eq c 8232
    || nat_eq c 8233
    || nat_eq c 8239
    || nat_eq c 8287
    || nat_eq c 12288

unfoldable pub size_of : String → ℕ
size_of String.[] = 0
size_of (String.◌∷◌ c s) = suc (size_of s)

unfoldable pub lstrip : String → String
lstrip String.[] = ""
lstrip (String.◌∷◌ c s) = if is_space (code c) then lstrip s else String.◌∷◌ c s

unfoldable pub rstrip : String → String
rstrip String.[] = ""
rstrip (String.◌∷◌ c s) =
    let rest = rstrip s in if rest == "" && is_space (code c) then "" else String.◌∷◌ c rest

-- `text.strip()`
unfoldable pub strip : String → String
unfolding lstrip rstrip is_space
strip s = rstrip (lstrip s)

-- `s.startswith(p)`
unfoldable pub starts_with : String → String → Bool
starts_with s String.[] = true
starts_with String.[] (String.◌∷◌ c p) = false
starts_with (String.◌∷◌ d s) (String.◌∷◌ c p) = nat_eq (code c) (code d) && starts_with s p

-- `s.endswith(p)`
unfoldable pub ends_with : String → String → Bool
ends_with String.[] p = p == ""
ends_with (String.◌∷◌ c s) p = let rest = ends_with s p in String.◌∷◌ c s == p || rest

-- Whether the character stands in the text.
unfoldable pub has_char : ℕ → String → Bool
has_char c String.[] = false
has_char c (String.◌∷◌ d s) = nat_eq (code d) c || has_char c s

-- The text before the first such character, the whole text where there is none.
unfoldable pub before : ℕ → String → String
before c String.[] = ""
before c (String.◌∷◌ d s) = if nat_eq (code d) c then "" else String.◌∷◌ d (before c s)

-- The text after the first such character.
unfoldable pub after : ℕ → String → String
after c String.[] = ""
after c (String.◌∷◌ d s) = if nat_eq (code d) c then s else after c s

-- The text before the last such character, the empty text where there is none.
unfoldable pub before_last : ℕ → String → String
unfolding has_char
before_last c String.[] = ""
before_last c (String.◌∷◌ d s) = if has_char c s then String.◌∷◌ d (before_last c s) else ""

unfoldable pub drop : ℕ → String → String
drop zero s = s
drop (suc n) String.[] = ""
drop (suc n) (String.◌∷◌ c s) = drop n s

-- `s.replace(old, new)` for an `old` that is not empty, where `skip` characters are still replaced.
unfoldable pub replace_from : ℕ → String → String → String → String
replace_from skip old new String.[] = ""
replace_from (suc skip) old new (String.◌∷◌ c s) = replace_from skip old new s
replace_from zero old new (String.◌∷◌ c s) =
    let skipped = String.◌++◌ new (replace_from (size_of old - 1) old new s) in
    let kept = String.◌∷◌ c (replace_from zero old new s) in
    if starts_with (String.◌∷◌ c s) old then skipped else kept

unfoldable pub replace : String → String → String → String
unfolding replace_from size_of starts_with
replace old new s = replace_from 0 old new s

-- The texts of the single characters.
unfoldable pub chars : String → List String
chars String.[] = []
chars (String.◌∷◌ c s) = String.◌∷◌ c String.[] ∷ chars s
