-- ===== src/RateLimits/Budget.antt =====
-- How many requests of one principal are allowed in a stretch of time.
use mathlib.Core.Path.{subst}
use native.Mathlib.Nat.{mul-le-mul_right}
use ploston_core.Prelude.{
  ℕ, ◌+◌, ◌-◌, ◌*◌, ◌≤◌, ◌<◌, ◌≡◌, refl, sym, ◌∙◌, String, Option, none, some, List, [], ◌∷◌, ◌==◌,
  eq_iff, arith, if◌then◌else◌, Bool-cases, inl, inr,
}
use ploston_core.Prelude.Assoc.{lookup}
use ploston_core.RateLimits.{Bucket, RateLimiter, key_of, limit_of}
use ploston_core.RateLimits.Calls.{Works, check_rate_limit-IsRun}
use ploston_core.RateLimits.Requests.{Request, check, allowed_to, IsTimed, IsLimited, other_kept}
use ploston_core.RateLimits.Spending.{IsSpent, IsSpent-later, own-IsSpent}

check-IsSpent :
    (w most from granted : ℕ) (p : String) (r : Request) (s : RateLimiter)
    → s.window_seconds ≡ w
    → Works w r.link
    → 0 < limit_of r.custom_limit s.default_limit
    → limit_of r.custom_limit s.default_limit ≤ most
    → from ≤ r.now
    → IsSpent w most from r.now granted (lookup (key_of p) s.buckets)
    → IsSpent w most from r.now
        ((if r.principal_id == p then (if (check r s).0.0 then 1 else 0) else 0) + granted)
        (lookup (key_of p) (check r s).1.buckets)
check-IsSpent w most from granted p r s window v pos le time h =
    elim (Bool-cases (r.principal_id == p)) [
      | inr other ↦
          rw (other, other_kept w r s p window v pos other)
            (subst (λ g. IsSpent w most from r.now g (lookup (key_of p) s.buckets)) (omega arith) h)
      | inl same ↦ rw same (
          subst
            (λ q.
              IsSpent w most from r.now ((if (check r s).0.0 then 1 else 0) + granted)
                (lookup (key_of q) (check r s).1.buckets))
            ((eq_iff r.principal_id p).0 same)
            (own-IsSpent w most from granted r s window v pos le time (
              subst (λ q. IsSpent w most from r.now granted (lookup (key_of q) s.buckets))
                (sym ((eq_iff r.principal_id p).0 same)) h)))
    ]

final :
    (w most from until granted : ℕ) (o : Option Bucket)
    → from ≤ until
    → IsSpent w most from until granted o
    → granted * w ≤ most * w + (until - from) * most
final w most from until granted none le h = rw h (omega arith)
final w most from until granted (some b) le (inl h) = rw h (omega arith)
final w most from until granted (some b) le (inr (after, before, paid)) =
    let parts : b.last_refill - from ≤ until - from = omega arith in
    omega (arith, mul-le-mul_right most parts, paid)

total :
    (w default most from now until granted : ℕ) (p : String) (rs : List Request) (s : RateLimiter)
    → s.window_seconds ≡ w
    → s.default_limit ≡ default
    → IsLimited w default most rs
    → from ≤ now
    → IsTimed now rs until
    → IsSpent w most from now granted (lookup (key_of p) s.buckets)
    → (allowed_to p rs s + granted) * w ≤ most * w + (until - from) * most
unfolding allowed_to
total w default most from now until granted p [] s window d limits time timed h =
    final w most from until (0 + granted) (lookup (key_of p) s.buckets) (omega arith) (
      subst (λ g. IsSpent w most from until g (lookup (key_of p) s.buckets)) (omega arith)
        (IsSpent-later w most from now until granted (lookup (key_of p) s.buckets) timed h))
total w default most from now until granted p (r ∷ rs) s window d (v, pos, le, limits) time
      (t, timed) h =
    let positive = subst (λ n. 0 < limit_of r.custom_limit n) (sym d) pos in
    let run =
      check_rate_limit-IsRun w r.link r.principal_id r.custom_limit r.now s v window positive in
    let n : ℕ = if r.principal_id == p then (if (check r s).0.0 then 1 else 0) else 0 in
    let paid =
      check-IsSpent w most from granted p r s window v positive
        (subst (λ n. limit_of r.custom_limit n ≤ most) (sym d) le) (omega arith)
        (IsSpent-later w most from now r.now granted (lookup (key_of p) s.buckets) t h) in
    let rest =
      total w default most from r.now until (n + granted) p rs (check r s).1 run.window
        (run.default ∙ d) limits (omega arith) timed paid in
    subst (λ x. x * w ≤ most * w + (until - from) * most) (omega arith) rest

-- From `from` until `until` a principal is allowed at most `most` requests at once and `most` more in
-- each window, in any state of the limiter at the beginning and with any requests of others between:
-- the allowed requests times the window are at most `most` times the window and the time. This holds
-- where the times do not fall, each limit is between 1 and `most`, and Redis answers and drops no
-- key before its time.
pub allowed_to-le :
    (most from until : ℕ) (p : String) (rs : List Request) (s : RateLimiter)
    → IsLimited s.window_seconds s.default_limit most rs
    → IsTimed from rs until
    → allowed_to p rs s * s.window_seconds ≤ most * s.window_seconds + (until - from) * most
allowed_to-le most from until p rs s limits timed =
    subst (λ x. x * s.window_seconds ≤ most * s.window_seconds + (until - from) * most)
      (omega arith)
      (total s.window_seconds s.default_limit most from from until 0 p rs s refl refl limits
        (omega arith) timed (nothing_granted (lookup (key_of p) s.buckets)))
  where
    nothing_granted : (o : Option Bucket) → IsSpent s.window_seconds most from from 0 o
    nothing_granted none = refl
    nothing_granted (some b) = inl refl
