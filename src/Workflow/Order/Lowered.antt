-- ===== src/Workflow/Order/Lowered.antt =====
-- The degrees of `get_execution_order`: integers that are lowered by one, some times.
use ploston_core.Prelude.{
  ℕ, zero, suc, ◌+◌, ◌≡◌, refl, ap, ◌∙◌, Bool, true, false, arith, if◌then◌else◌,
}
use ploston_core.Prelude.Int.{ℤ, pos, negsuc, pred_ℤ, is_zero}

-- `d - n`
unfoldable pub lower : ℕ → ℤ → ℤ
lower zero d = d
lower (suc n) d = pred_ℤ (lower n d)

lower-suc : (n m : ℕ) → lower (suc n) (pos (suc m)) ≡ lower n (pos m)
unfolding lower pred_ℤ
lower-suc zero m = refl
lower-suc (suc n) m = ground (arith, lower-suc n m)

lower-zero : (n : ℕ) → is_zero (lower (suc n) (pos zero)) ≡ false
unfolding lower pred_ℤ is_zero
lower-zero zero = refl
lower-zero (suc n) = go (lower (suc n) (pos zero)) (below n)
  where
    Below : ℤ → Type 0
    Below = elim [ pos n ↦ ⊥ | negsuc n ↦ Unit ]

    below : (n : ℕ) → Below (lower (suc n) (pos zero))
    below zero = tt
    below (suc n) = step (lower (suc n) (pos zero)) (below n)
      where
        step : (d : ℤ) → Below d → Below (pred_ℤ d)
        step (pos n) b = absurd b
        step (negsuc n) b = tt

    go : (d : ℤ) → Below d → is_zero (pred_ℤ d) ≡ false
    go (pos n) b = absurd b
    go (negsuc n) b = refl

pub is_zero-lower : (n m : ℕ) → is_zero (lower n (pos m)) ≡ true → n ≡ m
unfolding lower is_zero
is_zero-lower zero zero h = refl
is_zero-lower zero (suc m) h = cc
is_zero-lower (suc n) zero h = cc (lower-zero n)
is_zero-lower (suc n) (suc m) h = omega (arith, is_zero-lower n m (cc (lower-suc n m)))

pub lower_all : (n : ℕ) → is_zero (lower n (pos n)) ≡ true
unfolding lower is_zero
lower_all zero = refl
lower_all (suc n) = cc (lower-suc n n, lower_all n)

pub is_zero-pred : (d : ℤ) → is_zero d ≡ true → is_zero (pred_ℤ d) ≡ false
unfolding is_zero pred_ℤ
is_zero-pred (pos zero) h = refl
is_zero-pred (pos (suc n)) h = cc
is_zero-pred (negsuc n) h = refl

lower-pred : (n : ℕ) (d : ℤ) → lower n (pred_ℤ d) ≡ lower (suc n) d
unfolding lower
lower-pred zero d = refl
lower-pred (suc n) d = ap pred_ℤ (lower-pred n d)

pub lower_twice :
    (hit same : Bool) (n : ℕ) (d : ℤ)
    → lower (if hit then n else 0) (lower (if hit then (if same then 1 else 0) else 0) d)
      ≡ lower (if hit then (if same then 1 else 0) + n else 0) d
unfolding lower
lower_twice false same n d = refl
lower_twice true true n d =
    lower-pred n d ∙ ap (λ m. lower m d) {x = suc n} {y = 1 + n} (omega arith)
lower_twice true false n d = ap (λ m. lower m d) {x = n} {y = 0 + n} (omega arith)
