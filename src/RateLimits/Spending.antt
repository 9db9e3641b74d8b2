-- ===== src/RateLimits/Spending.antt =====
-- The account of a bucket: the tokens that were granted and those that are left.
use mathlib.Core.Path.{subst}
use native.Mathlib.Nat.{mul-le-mul_right, le_trans}
use ploston_core.Prelude.{
  ℕ, ◌+◌, ◌-◌, ◌*◌, ◌≤◌, ◌<◌, ◌≡◌, ap, ◌∙◌, ◌⊎◌, Option, none, some, eq_refl, ltb, arith,
  if◌then◌else◌, Bool-cases, inl, inr, is_some,
}
use ploston_core.Prelude.Assoc.{lookup}
use ploston_core.RateLimits.{
  Bucket, Link, RateLimiter, tokens_at, run_script, found_at, key_of, limit_of,
}
use ploston_core.RateLimits.Script.{refilled-le_budget, refilled-le_limit}
use ploston_core.RateLimits.Calls.{Works, run_of, check_rate_limit-IsRun}
use ploston_core.RateLimits.Requests.{Request, check, lookup-write}

-- What `granted` requests from `from` until `now` cost: the tokens that are left are worth no more
-- than the rest.
abbrev pub IsSpent : ℕ → ℕ → ℕ → ℕ → ℕ → Option Bucket → Type 0
IsSpent w most from now granted none = granted ≡ 0
IsSpent w most from now granted (some b) =
    (granted ≡ 0)
    ⊎ (from ≤ b.last_refill)
      × (b.last_refill ≤ now)
      × (granted * w + b.tokens * w ≤ most * w + (b.last_refill - from) * most)

tokens_at-le : (limit w now : ℕ) (o : Option Bucket) → tokens_at limit w now o ≤ limit
unfolding tokens_at
tokens_at-le limit w now none = omega arith
tokens_at-le limit w now (some b) = refilled-le_limit limit w now b

-- All tokens of a full bucket are affordable where nothing was granted.
afforded_fresh :
    (w limit most from now granted : ℕ) (o : Option Bucket)
    → limit ≤ most
    → granted ≡ 0
    → granted * w + tokens_at limit w now o * w ≤ most * w + (now - from) * most
afforded_fresh w limit most from now granted o le none_granted =
    rw none_granted (omega (arith, mul-le-mul_right w (le_trans (tokens_at-le limit w now o) le)))

afforded_refill :
    (w most from last now cost left tokens : ℕ)
    → from ≤ last
    → last ≤ now
    → cost + left ≤ most * w + (last - from) * most
    → tokens ≤ left + (now - last) * most
    → cost + tokens ≤ most * w + (now - from) * most
afforded_refill w most from last now cost left tokens after before paid gained =
    let parts : now - from ≡ (last - from) + (now - last) = omega arith in
    grind (arith, ap (λ (x : ℕ). x * most) parts)

-- Where Redis has dropped the bucket, enough time has passed to fill it.
afforded_dropped :
    (w most from last now cost left tokens : ℕ)
    → from ≤ last
    → last + w * 2 ≤ now
    → cost + left ≤ most * w + (last - from) * most
    → tokens ≤ most * w
    → cost + tokens ≤ most * w + (now - from) * most
afforded_dropped w most from last now cost left tokens after passed paid full =
    let longer : (last - from) + w * 2 ≤ now - from = omega arith in
    grind (arith, mul-le-mul_right most longer)

-- The cost of the tokens that a request finds.
afforded :
    (w limit most from now granted : ℕ) (link : Link) (o : Option Bucket)
    → Works w link
    → limit ≤ most
    → IsSpent w most from now granted o
    → granted * w + tokens_at limit w now (found_at link now o) * w ≤ most * w + (now - from) * most
unfolding found_at
afforded w limit most from now granted link none v le h =
    afforded_fresh w limit most from now granted none le h
afforded w limit most from now granted link (some b) v le (inl fresh) =
    afforded_fresh w limit most from now granted (found_at link now (some b)) le fresh
afforded w limit most from now granted link (some b) v le (inr (after, before, paid)) =
    elim (Bool-cases (link.alive now b)) [
      | inl alive ↦ rw alive (
          afforded_refill w most from b.last_refill now (granted * w) (b.tokens * w) _ after before
            paid (unfold tokens_at in refilled-le_budget limit most w now b le before))
      | inr dropped ↦ rw dropped (
          afforded_dropped w most from b.last_refill now (granted * w) (b.tokens * w) _ after
            (v.keeps now b dropped) paid
            (mul-le-mul_right w (le_trans (tokens_at-le limit w now none) le)))
    ]

pub IsSpent-later :
    (w most from now later granted : ℕ) (o : Option Bucket)
    → now ≤ later
    → IsSpent w most from now granted o
    → IsSpent w most from later granted o
IsSpent-later w most from now later granted none le h = h
IsSpent-later w most from now later granted (some b) le (inl h) = inl h
IsSpent-later w most from now later granted (some b) le (inr (after, before, paid)) =
    inr (after, omega arith, paid)

pay_one :
    (w most budget granted tokens : ℕ)
    → 0 < tokens
    → granted * w + tokens * w ≤ most * w + budget
    → (1 + granted) * w + (tokens - 1) * w ≤ most * w + budget
pay_one w most budget granted tokens pos paid =
    let one_more : (1 + granted) + (tokens - 1) ≡ granted + tokens = omega arith in
    grind (arith, ap (λ (x : ℕ). x * w) one_more)

-- A run of the script keeps the account.
run_script-IsSpent :
    (w limit most from now granted : ℕ) (link : Link) (o : Option Bucket)
    → Works w link
    → limit ≤ most
    → from ≤ now
    → IsSpent w most from now granted o
    → IsSpent w most from now
        ((if (run_script limit w now (found_at link now o)).0 then 1 else 0) + granted)
        (if is_some (run_script limit w now (found_at link now o)).1
          then (run_script limit w now (found_at link now o)).1
          else o)
unfolding run_script
run_script-IsSpent w limit most from now granted link o v le time h =
    let tokens = tokens_at limit w now (found_at link now o) in
    elim (Bool-cases (ltb 0 tokens)) [
      | inl some_left ↦
          rw (run_script, some_left)
            (inr (
              time,
              omega arith,
              pay_one w most ((now - from) * most) granted tokens (ground (arith, some_left))
                  (afforded w limit most from now granted link o v le h),
            ))
      | inr none_left ↦
          rw (run_script, none_left) (subst (λ g. IsSpent w most from now g o) (omega arith) h)
    ]

module _ (w most from granted : ℕ) (r : Request) (s : RateLimiter) where
  pub own-IsSpent :
      s.window_seconds ≡ w
      → Works w r.link
      → 0 < limit_of r.custom_limit s.default_limit
      → limit_of r.custom_limit s.default_limit ≤ most
      → from ≤ r.now
      → IsSpent w most from r.now granted (lookup (key_of r.principal_id) s.buckets)
      → IsSpent w most from r.now
          ((if (check r s).0.0 then 1 else 0) + granted)
          (lookup (key_of r.principal_id) (check r s).1.buckets)
  own-IsSpent window v pos le time h =
      let limit = limit_of r.custom_limit s.default_limit in
      let run =
        check_rate_limit-IsRun w r.link r.principal_id r.custom_limit r.now s v window pos in
      let o = (run_of w r.link r.principal_id limit r.now s).1 in
      let kept =
        ap (lookup (key_of r.principal_id)) run.written
        ∙ lookup-write r.principal_id r.principal_id o s in
      rw (run.answer, kept, eq_refl r.principal_id)
        (run_script-IsSpent w limit most from r.now granted r.link
          (lookup (key_of r.principal_id) s.buckets) v le time h)
