-- ===== src/RateLimits/Waits.antt =====
-- No principal that keeps asking is denied for longer than a token takes to come.
use mathlib.Core.Path.{subst}
use ploston_core.Prelude.{
  ℕ, ◌+◌, ◌*◌, ◌≤◌, ◌<◌, ◌≡◌, refl, sym, ap, ◌∙◌, ◌⊎◌, String, true, false, Option, none, some,
  List, [], ◌∷◌, ◌++◌, ◌==◌, eq_iff, eq_refl, arith, Bool-cases, inl, inr,
}
use ploston_core.Prelude.Assoc.{lookup}
use ploston_core.RateLimits.{
  Bucket, Link, RateLimiter, tokens_at, run_script, found_at, key_of, limit_of,
}
use ploston_core.RateLimits.Script.{refilled-pos}
use ploston_core.RateLimits.Calls.{Works, check_rate_limit-IsRun}
use ploston_core.RateLimits.Requests.{Request, check, allowed_to, IsLimited, other_kept}

-- Whether a bucket was written by a time.
abbrev pub IsWrittenBy : ℕ → Option Bucket → Type 0
IsWrittenBy time none = Unit {0}
IsWrittenBy time (some b) = b.last_refill ≤ time

tokens_at-pos :
    (limit w now from wait : ℕ) (link : Link) (o : Option Bucket)
    → 0 < limit
    → 0 < w
    → w ≤ wait * limit
    → from + wait ≤ now
    → IsWrittenBy from o
    → 0 < tokens_at limit w now (found_at link now o)
unfolding tokens_at found_at
tokens_at-pos limit w now from wait link none pos window worth time h = pos
tokens_at-pos limit w now from wait link (some b) pos window worth time h =
    elim (Bool-cases (link.alive now b)) [
      | inl alive ↦ rw alive (refilled-pos limit w now wait b pos window worth (omega arith))
      | inr dropped ↦ rw dropped pos
    ]

run_script-allows :
    (limit w now : ℕ) (o : Option Bucket)
    → 0 < tokens_at limit w now o
    → (run_script limit w now o).0 ≡ true
unfolding run_script
run_script-allows limit w now o h = ground arith

run_script-denies :
    (limit w now : ℕ) (o : Option Bucket)
    → (run_script limit w now o).0 ≡ false
    → (run_script limit w now o).1 ≡ none
unfolding run_script
run_script-denies limit w now o h = ground arith

denied_kept :
    (w : ℕ) (r : Request) (s : RateLimiter)
    → s.window_seconds ≡ w
    → Works w r.link
    → 0 < limit_of r.custom_limit s.default_limit
    → (check r s).0.0 ≡ false
    → lookup (key_of r.principal_id) (check r s).1.buckets
      ≡ lookup (key_of r.principal_id) s.buckets
denied_kept w r s window v pos denied =
    let limit = limit_of r.custom_limit s.default_limit in
    let run = check_rate_limit-IsRun w r.link r.principal_id r.custom_limit r.now s v window pos in
    let nothing =
      run_script-denies limit w r.now
        (found_at r.link r.now (lookup (key_of r.principal_id) s.buckets))
        (sym run.answer ∙ denied) in
    ap (lookup (key_of r.principal_id)) run.written ∙ rw nothing refl

-- The bucket of a principal after a request that did not count for it.
uncounted_kept :
    (w : ℕ) (p : String) (r : Request) (s : RateLimiter)
    → s.window_seconds ≡ w
    → Works w r.link
    → 0 < limit_of r.custom_limit s.default_limit
    → (r.principal_id == p) ≡ false ⊎ (check r s).0.0 ≡ false
    → lookup (key_of p) (check r s).1.buckets ≡ lookup (key_of p) s.buckets
uncounted_kept w p r s window v pos (inl other) = other_kept w r s p window v pos other
uncounted_kept w p r s window v pos (inr denied) = elim (Bool-cases (r.principal_id == p)) [
  | inr other ↦ other_kept w r s p window v pos other
  | inl same ↦
      subst (λ q. lookup (key_of q) (check r s).1.buckets ≡ lookup (key_of q) s.buckets)
        ((eq_iff r.principal_id p).0 same) (denied_kept w r s window v pos denied)
]

granted_at_last :
    (w from wait : ℕ) (r : Request) (s : RateLimiter)
    → s.window_seconds ≡ w
    → Works w r.link
    → 0 < limit_of r.custom_limit s.default_limit
    → 0 < w
    → w ≤ wait * limit_of r.custom_limit s.default_limit
    → from + wait ≤ r.now
    → IsWrittenBy from (lookup (key_of r.principal_id) s.buckets)
    → (check r s).0.0 ≡ true
granted_at_last w from wait r s window v pos length worth time h =
    let limit = limit_of r.custom_limit s.default_limit in
    let run = check_rate_limit-IsRun w r.link r.principal_id r.custom_limit r.now s v window pos in
    run.answer
    ∙ run_script-allows limit w r.now
        (found_at r.link r.now (lookup (key_of r.principal_id) s.buckets))
        (tokens_at-pos limit w r.now from wait r.link (lookup (key_of r.principal_id) s.buckets) pos
          length worth time h)

waits :
    (w default most from wait : ℕ) (rs : List Request) (r : Request) (s : RateLimiter)
    → s.window_seconds ≡ w
    → s.default_limit ≡ default
    → IsLimited w default most (rs ++ r ∷ [])
    → 0 < w
    → w ≤ wait * limit_of r.custom_limit default
    → from + wait ≤ r.now
    → IsWrittenBy from (lookup (key_of r.principal_id) s.buckets)
    → 0 < allowed_to r.principal_id (rs ++ r ∷ []) s
unfolding allowed_to
waits w default most from wait [] r s window d (v, pos, le, rest) positive worth time h =
    let limited = subst (λ n. 0 < limit_of r.custom_limit n) (sym d) pos in
    let enough = subst (λ n. w ≤ wait * limit_of r.custom_limit n) (sym d) worth in
    rw
      (
        eq_refl r.principal_id,
        granted_at_last w from wait r s window v limited positive enough time h,
      )
      (omega arith)
waits w default most from wait (q ∷ rs) r s window d (v, pos, le, rest) positive worth time h =
    let limited = subst (λ n. 0 < limit_of q.custom_limit n) (sym d) pos in
    let run =
      check_rate_limit-IsRun w q.link q.principal_id q.custom_limit q.now s v window limited in
    let later =
      λ (kept : lookup (key_of r.principal_id) (check q s).1.buckets
          ≡ lookup (key_of r.principal_id) s.buckets).
        waits w default most from wait rs r (check q s).1 run.window (run.default ∙ d) rest positive
          worth time (subst (IsWrittenBy from) (sym kept) h) in
    elim (Bool-cases (q.principal_id == r.principal_id)) [
      | inr other ↦
          omega (arith, later (uncounted_kept w r.principal_id q s window v limited (inl other)))
      | inl same ↦ elim (Bool-cases (check q s).0.0) [
        | inl granted ↦ rw (same, granted) (omega arith)
        | inr denied ↦
            omega (arith, later (uncounted_kept w r.principal_id q s window v limited (inr denied)))
      ]
    ]

-- No principal starves: in a stretch of requests of anyone, whose last one comes from the principal
-- at least `wait` seconds after its bucket was last written, one of the principal's requests is
-- allowed, where `wait` times the last request's limit is at least the window, the window is not 0,
-- each limit is at least 1, and Redis answers.
pub allowed_to-pos :
    (most from wait : ℕ) (rs : List Request) (r : Request) (s : RateLimiter)
    → IsLimited s.window_seconds s.default_limit most (rs ++ r ∷ [])
    → 0 < s.window_seconds
    → s.window_seconds ≤ wait * limit_of r.custom_limit s.default_limit
    → from + wait ≤ r.now
    → IsWrittenBy from (lookup (key_of r.principal_id) s.buckets)
    → 0 < allowed_to r.principal_id (rs ++ r ∷ []) s
allowed_to-pos most from wait rs r s limits positive worth time h =
    waits s.window_seconds s.default_limit most from wait rs r s refl refl limits positive worth
      time h
