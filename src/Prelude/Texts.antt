-- ===== src/Prelude/Texts.antt =====
-- Texts in parts: `str.split` and `str.join`.
use Prim.Native.Char.{Char, code}
use Prim.Native.Nat.{ℕ}
use Prim.Native.String.{String}
use Prim.Native.String
use Prim.Native.String.append
use mathlib.Core.Path.{◌≡◌, refl, sym, ◌∙◌}
use ploston_core.Prelude.Tests.{nat_eq, if◌then◌else◌}
use mathlib.Core.Bool.{Bool, true, false}
use mathlib.Core.List.{List, [], ◌∷◌}

-- Puts a character before the first part.
unfoldable pub prepend : Char → List String → List String
prepend c [] = String.◌∷◌ c String.[] ∷ []
prepend c (s ∷ ss) = String.◌∷◌ c s ∷ ss

-- `text.split(c)`
unfoldable pub split_at : ℕ → String → List String
unfolding prepend
split_at c String.[] = "" ∷ []
split_at c (String.◌∷◌ d s) =
    let rest = split_at c s in if nat_eq (code d) c then "" ∷ rest else prepend d rest

-- `sep.join(parts)`
unfoldable pub join : String → List String → String
join sep [] = ""
join sep (s ∷ []) = s
join sep (s ∷ t ∷ ss) = String.◌++◌ s (String.◌++◌ sep (join sep (t ∷ ss)))

pub append-cancel_left : (s p q : String) → String.◌++◌ s p ≡ String.◌++◌ s q → p ≡ q
append-cancel_left String.[] p q h = sym (append.nil p) ∙ h ∙ append.nil q
append-cancel_left (String.◌∷◌ c s) p q h =
    let tails = append.cons c s p in
    let tails' = append.cons c s q in append-cancel_left s p q (cc (h, tails, tails'))

-- A split text has at least one part.
pub split_at_nonempty :
    (c : ℕ) (s : String) → (p : String) × (ps : List String) × (split_at c s ≡ p ∷ ps)
unfolding split_at
split_at_nonempty c String.[] = ("", [], refl)
split_at_nonempty c (String.◌∷◌ d s) = either (nat_eq (code d) c)
  where
    prepended : (ps : List String) → (q : String) × (qs : List String) × (prepend d ps ≡ q ∷ qs)
    prepended [] = (String.◌∷◌ d String.[], [], unfold prepend in refl)
    prepended (p ∷ ps) = (String.◌∷◌ d p, ps, unfold prepend in refl)

    either :
        (b : Bool)
        → (q : String) × (qs : List String) × ((if b
              then "" ∷ split_at c s
              else prepend d (split_at c s))
            ≡ q ∷ qs)
    either true = ("", split_at c s, refl)
    either false = prepended (split_at c s)
