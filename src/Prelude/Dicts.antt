-- ===== src/Prelude/Dicts.antt =====
-- Dicts without a repeated key: lookups, the keys after a change, and searches of the values.
use Prim.Native.Nat.{◌<◌}
use Prim.Native.String.{String}
use mathlib.Core.Path.{◌≡◌, refl}
use mathlib.Core.Bool.{Bool, true, false}
use mathlib.Core.Option.{Option, none, some}
use mathlib.Core.List.{List, [], ◌∷◌}
use native.Mathlib.Omega.{arith}
use text.Mathlib.Text.{◌==◌}
use text.Mathlib.TextEquality.{eq_iff}
use text.Mathlib.TextPositions.{eq_refl}
use mathlib.Core.Logic.{inl, inr}
use ploston_core.Prelude.Tests.{if◌then◌else◌, is_some, Bool-cases}
use ploston_core.Prelude.Assoc.{Assoc, lookup, insert, erase, keys, values}
use ploston_core.Prelude.Count.{occurs, Distinct, Distinct-tail, not_occurs_head}

-- Whether one of the members passes the test.
unfoldable pub any {ℓ} : {A : Type ℓ} → (A → Bool) → List A → Bool
any p [] = false
any p (x ∷ xs) = if p x then true else any p xs

-- The first member that passes the test.
unfoldable pub first {ℓ} : {A : Type ℓ} → (A → Bool) → List A → Option A
first p [] = none
first p (x ∷ xs) = if p x then some x else first p xs

pub first-passes {ℓ} :
    {A : Type ℓ} (p : A → Bool) (xs : List A) (x : A) → first p xs ≡ some x → p x ≡ true
unfolding first
first-passes p [] x h = cc
first-passes p (y ∷ ys) x h = ground (arith, first-passes p ys x)

module _ {ℓ} {V : Type ℓ} where
  pub occurs-keys-insert :
      (j k : String) (v : V) (d : Assoc V)
      → occurs j (keys (insert k v d)) ≡ (
          if k == j
          then (if is_some (lookup k d) then occurs j (keys d) else 1)
          else occurs j (keys d))
  unfolding occurs insert lookup
  occurs-keys-insert j k v [] = ground arith
  occurs-keys-insert j k v ((i, w) ∷ d) =
      ground (arith, occurs-keys-insert j k v d, eq_iff i k, eq_iff k j, eq_iff i j)

  pub occurs-keys-lookup :
      (k : String) (d : Assoc V) → is_some (lookup k d) ≡ false → occurs k (keys d) ≡ 0
  unfolding occurs lookup
  occurs-keys-lookup k [] h = refl
  occurs-keys-lookup k ((i, w) ∷ d) h = ground (arith, occurs-keys-lookup k d)

  pub insert-Distinct :
      (k : String) (v : V) (d : Assoc V) → Distinct (keys d) → Distinct (keys (insert k v d))
  insert-Distinct k v d h j =
      ground (arith, occurs-keys-insert j k v d, occurs-keys-lookup k d, h j, eq_iff k j)

  pub occurs-keys-erase :
      (j k : String) (d : Assoc V)
      → occurs j (keys (erase k d)) ≡ (if k == j then 0 else occurs j (keys d))
  unfolding occurs erase
  occurs-keys-erase j k [] = ground arith
  occurs-keys-erase j k ((i, w) ∷ d) =
      ground (arith, occurs-keys-erase j k d, eq_iff i k, eq_iff k j, eq_iff i j)

  pub erase-Distinct : (k : String) (d : Assoc V) → Distinct (keys d) → Distinct (keys (erase k d))
  erase-Distinct k d h j = ground (arith, occurs-keys-erase j k d, h j)

  pub occurs-lookup :
      (k : String) (d : Assoc V) (v : V) → lookup k d ≡ some v → 0 < occurs k (keys d)
  unfolding occurs lookup
  occurs-lookup k [] v h = cc
  occurs-lookup k ((i, w) ∷ d) v h = ground (arith, occurs-lookup k d v)

  -- A value that a search finds stands at a key.
  pub first-values :
      (p : V → Bool) (d : Assoc V) (v : V)
      → Distinct (keys d)
      → first p (values d) ≡ some v
      → (k : String) × (lookup k d ≡ some v)
  unfolding first lookup
  first-values p [] v h e = cc
  first-values p ((i, w) ∷ d) v h e = elim (Bool-cases (p w)) [
    | inl here ↦ (i, ground (arith, eq_refl i))
    | inr there ↦
        let (k, at) = first-values p d v (Distinct-tail i (keys d) h) (ground arith) in
        (k, ground (arith, occurs-lookup k d v at, not_occurs_head i (keys d) h, eq_iff i k))
  ]

  -- A search of the values finds something where one of them passes.
  pub lookup-first :
      (p : V → Bool) (k : String) (d : Assoc V) (v : V)
      → lookup k d ≡ some v
      → p v ≡ true
      → is_some (first p (values d)) ≡ true
  unfolding first lookup
  lookup-first p k [] v h t = cc
  lookup-first p k ((i, w) ∷ d) v h t = ground (arith, lookup-first p k d v)
