-- ===== src/Prelude/Lists.antt =====
-- Lists of texts with Boolean membership, and lengths in native numbers.
use Prim.Native.Nat.{ℕ, suc, ◌+◌, ◌≤◌}
use Prim.Native.String.{String}
use mathlib.Core.Path.{◌≡◌, refl}
use mathlib.Core.Bool.{Bool, true, false, not, ◌&&◌, ◌||◌}
use mathlib.Core.List.{List, [], ◌∷◌, ◌++◌}
use native.Mathlib.Omega.{arith}
use text.Mathlib.Text.{◌==◌}
use ploston_core.Prelude.Tests.{if◌then◌else◌}

module _ {ℓ} {A : Type ℓ} where
  abbrev pub length : List A → ℕ
  length [] = 0
  length (x ∷ xs) = suc (length xs)

  pub length-append : (xs ys : List A) → length (xs ++ ys) ≡ length xs + length ys
  length-append [] ys = omega arith
  length-append (x ∷ xs) ys = omega (arith, length-append xs ys)

  -- `[x for x in xs if p(x)]`
  unfoldable pub select : (A → Bool) → List A → List A
  select p [] = []
  select p (x ∷ xs) = let rest = select p xs in if p x then x ∷ rest else rest

  pub length-select-le : (p : A → Bool) (xs : List A) → length (select p xs) ≤ length xs
  unfolding select
  length-select-le p [] = omega arith
  length-select-le p (x ∷ xs) = ground (arith, length-select-le p xs)

-- `x in xs`
unfoldable pub mem : String → List String → Bool
mem x [] = false
mem x (y ∷ ys) = y == x || mem x ys

pub mem-append : (x : String) (xs ys : List String) → mem x (xs ++ ys) ≡ (mem x xs || mem x ys)
unfolding mem
mem-append x [] ys = refl
mem-append x (y ∷ xs) ys = ground (arith, mem-append x xs ys)

-- No text stands twice in the list.
unfoldable pub unique : List String → Bool
unique [] = true
unique (x ∷ xs) = not (mem x xs) && unique xs

-- Drops every occurrence of a text.
unfoldable pub without : String → List String → List String
without x = select (λ y. not (y == x))

-- How many members of `xs` stand in `ys`.
unfoldable pub hits : List String → List String → ℕ
hits [] ys = 0
hits (x ∷ xs) ys = (if mem x ys then 1 else 0) + hits xs ys
