-- ===== src/Prelude/Count.antt =====
-- How often a text stands in a list, and the pigeonhole facts that follow.
use Prim.Native.Nat.{ℕ, ◌+◌, ◌≤◌, ◌<◌}
use Prim.Native.String.{String}
use mathlib.Core.Path.{◌≡◌, refl}
use mathlib.Core.Logic.{inl, inr}
use mathlib.Core.Bool.{true, false}
use mathlib.Core.List.{List, [], ◌∷◌, ◌++◌}
use native.Mathlib.Omega.{arith}
use text.Mathlib.Text.{◌==◌}
use text.Mathlib.TextEquality.{eq_iff}
use text.Mathlib.TextPositions.{eq_refl}
use ploston_core.Prelude.Tests.{Bool-cases, if◌then◌else◌}
use ploston_core.Prelude.Lists.{length, select, mem, unique, without, hits}

unfoldable pub occurs : String → List String → ℕ
occurs k [] = 0
occurs k (x ∷ xs) = (if x == k then 1 else 0) + occurs k xs

-- No text stands twice in the list.
abbrev pub Distinct : List String → Type 0
Distinct xs = (k : String) → occurs k xs ≤ 1

pub occurs-append :
    (k : String) (xs ys : List String) → occurs k (xs ++ ys) ≡ occurs k xs + occurs k ys
unfolding occurs
occurs-append k [] ys = omega arith
occurs-append k (x ∷ xs) ys = omega (arith, occurs-append k xs ys)

pub occurs_of_mem : (k : String) (xs : List String) → mem k xs ≡ true → 0 < occurs k xs
unfolding occurs mem
occurs_of_mem k [] h = ground arith
occurs_of_mem k (x ∷ xs) h = ground (arith, occurs_of_mem k xs)

pub occurs_of_not_mem : (k : String) (xs : List String) → mem k xs ≡ false → occurs k xs ≡ 0
unfolding occurs mem
occurs_of_not_mem k [] h = refl
occurs_of_not_mem k (x ∷ xs) h = ground (arith, occurs_of_not_mem k xs)

pub mem_of_occurs : (k : String) (xs : List String) → 0 < occurs k xs → mem k xs ≡ true
unfolding occurs mem
mem_of_occurs k [] h = absurd (omega arith)
mem_of_occurs k (x ∷ xs) h = ground (arith, mem_of_occurs k xs)

pub Distinct-tail : (x : String) (xs : List String) → Distinct (x ∷ xs) → Distinct xs
unfolding occurs
Distinct-tail x xs d k = ground (arith, d k)

pub not_occurs_head : (x : String) (xs : List String) → Distinct (x ∷ xs) → occurs x xs ≡ 0
unfolding occurs
not_occurs_head x xs d = ground (arith, d x, eq_iff x x)

mem-without :
    (d x : String) (ys : List String) → mem x (without d ys) ≡ (if d == x then false else mem x ys)
unfolding mem without select
mem-without d x [] = ground arith
mem-without d x (y ∷ ys) = ground (arith, mem-without d x ys, eq_iff d x, eq_iff y d, eq_iff y x)

length-without : (d : String) (ys : List String) → length (without d ys) + occurs d ys ≡ length ys
unfolding occurs without select
length-without d [] = refl
length-without d (y ∷ ys) = ground (arith, length-without d ys)

pub hits-append : (xs ys zs : List String) → hits (xs ++ ys) zs ≡ hits xs zs + hits ys zs
unfolding hits
hits-append [] ys zs = omega arith
hits-append (x ∷ xs) ys zs = omega (arith, hits-append xs ys zs)

-- Dropping a text that the first list lacks changes no hit.
hits-without :
    (d : String) (xs ys : List String) → occurs d xs ≡ 0 → hits xs (without d ys) ≡ hits xs ys
unfolding hits occurs
hits-without d [] ys h = refl
hits-without d (x ∷ xs) ys h =
    ground (arith, hits-without d xs ys, mem-without d x ys, eq_iff x d, eq_iff d x)

-- Distinct members hit at most as many places as there are.
pub hits-le : (xs ys : List String) → Distinct xs → hits xs ys ≤ length ys
unfolding hits
hits-le [] ys d = omega arith
hits-le (x ∷ xs) ys d = elim (Bool-cases (mem x ys)) [
  | inr miss ↦ rw miss (omega (arith, hits-le xs ys (Distinct-tail x xs d)))
  | inl hit ↦ rw hit (
      omega (
        arith,
        hits-le xs (without x ys) (Distinct-tail x xs d),
        hits-without x xs ys (not_occurs_head x xs d),
        length-without x ys,
        occurs_of_mem x ys hit,
      ))
]

-- Where every place is hit, each text of the second list stands in the first.
pub occurs_of_full :
    (k : String) (xs ys : List String)
    → Distinct xs
    → hits xs ys ≡ length ys
    → 0 < occurs k ys
    → 0 < occurs k xs
occurs_of_full k xs ys d full h = elim (Bool-cases (mem k xs)) [
  | inl m ↦ occurs_of_mem k xs m
  | inr n ↦ absurd (
      omega (
        arith,
        hits-le xs (without k ys) d,
        hits-without k xs ys (occurs_of_not_mem k xs n),
        length-without k ys,
      ))
]

hits-le-without :
    (k : String) (xs ys : List String) → hits xs ys ≤ hits xs (without k ys) + occurs k xs
unfolding hits occurs
hits-le-without k [] ys = omega arith
hits-le-without k (x ∷ xs) ys =
    ground (arith, hits-le-without k xs ys, mem-without k x ys, eq_iff x k, eq_iff k x)

-- Where every place is hit by distinct texts, the places are distinct too.
pub Distinct-of_full : (xs ys : List String) → Distinct xs → hits xs ys ≡ length ys → Distinct ys
Distinct-of_full xs ys d full k =
    omega (arith, hits-le-without k xs ys, hits-le xs (without k ys) d, length-without k ys, d k)

hits-cons :
    (y : String) (xs ys : List String)
    → mem y ys ≡ false
    → hits xs (y ∷ ys) ≡ hits xs ys + occurs y xs
unfolding hits occurs mem
hits-cons y [] ys h = refl
hits-cons y (x ∷ xs) ys h = ground (arith, hits-cons y xs ys, eq_iff x y, eq_iff y x)

-- Where each of distinct places is a member, every place is hit.
pub full_of_members :
    (xs ys : List String)
    → Distinct ys
    → ((k : String) → 0 < occurs k ys → 0 < occurs k xs)
    → length ys ≤ hits xs ys
full_of_members xs [] d h = omega arith
full_of_members xs (y ∷ ys) d h = elim (Bool-cases (mem y ys)) [
  | inl m ↦ absurd (omega (arith, not_occurs_head y ys d, occurs_of_mem y ys m))
  | inr n ↦ omega (
    arith,
    hits-cons y xs ys n,
    full_of_members xs ys (Distinct-tail y ys d) (λ k p. h k (occurs_cons k y ys p)),
    h y (occurs_head y ys),
  )
]
  where
    occurs_cons : (k y : String) (ys : List String) → 0 < occurs k ys → 0 < occurs k (y ∷ ys)
    occurs_cons k y ys p = unfold occurs in omega arith

    occurs_head : (y : String) (ys : List String) → 0 < occurs y (y ∷ ys)
    occurs_head y ys = unfold occurs in rw (eq_refl y) (omega arith)

pub mem_iff_of_not_occurs : (k : String) (xs : List String) → occurs k xs ≡ 0 → mem k xs ≡ false
mem_iff_of_not_occurs k xs h = elim (Bool-cases (mem k xs)) [
  | inl m ↦ absurd (omega (arith, occurs_of_mem k xs m))
  | inr n ↦ n
]

-- A check that runs: no text stands twice.
pub unique-Distinct : (xs : List String) → unique xs ≡ true → Distinct xs
unfolding unique occurs
unique-Distinct [] h k = omega arith
unique-Distinct (x ∷ xs) h k =
    ground (
      arith,
      unique-Distinct xs (ground arith) k,
      eq_iff x k,
      mem_of_occurs x xs,
      occurs_of_mem x xs,
    )
