-- ===== src/RateLimits/Requests.antt =====
-- Sequences of calls of `check_rate_limit`, and the buckets that a call leaves alone.
use ploston_core.Prelude.{
  ℕ, ◌+◌, ◌≤◌, ◌<◌, ◌≡◌, refl, ap, ◌∙◌, String, Bool, false, Option, none, some, List, [], ◌∷◌,
  ◌==◌, eq_iff, arith, if◌then◌else◌, is_some,
}
use ploston_core.Prelude.Assoc.{lookup, lookup-insert}
use ploston_core.Prelude.Texts.{join, append-cancel_left}
use ploston_core.RateLimits.{Bucket, Link, RateLimiter, write, key_of, limit_of, check_rate_limit}
use ploston_core.RateLimits.Calls.{Works, run_of, check_rate_limit-IsRun}

pub record Request : Type 0 where
  pub link : Link
  pub principal_id : String
  pub custom_limit : Option ℕ
  pub now : ℕ

abbrev pub check : Request → RateLimiter → (Bool × ℕ) × RateLimiter
check r s = check_rate_limit r.link r.principal_id r.custom_limit r.now s

-- How many of the requests of one principal are allowed.
unfoldable pub allowed_to : String → List Request → RateLimiter → ℕ
allowed_to p [] s = 0
allowed_to p (r ∷ rs) s =
    (if r.principal_id == p then (if (check r s).0.0 then 1 else 0) else 0)
    + allowed_to p rs (check r s).1

-- The times of the requests do not fall, from `from` to `until`.
abbrev pub IsTimed : ℕ → List Request → ℕ → Type 0
IsTimed from [] until = from ≤ until
IsTimed from (r ∷ rs) until = (from ≤ r.now) × IsTimed r.now rs until

-- Every request meets a link that works and has a limit from 1 to `most`.
abbrev pub IsLimited : ℕ → ℕ → ℕ → List Request → Type 0
IsLimited w default most [] = Unit {0}
IsLimited w default most (r ∷ rs) =
    Works w r.link
    × (0 < limit_of r.custom_limit default)
    × (limit_of r.custom_limit default ≤ most)
    × IsLimited w default most rs

key_of-injective : (p q : String) → key_of p ≡ key_of q → p ≡ q
unfolding join
key_of-injective p q h = append-cancel_left "" p q (append-cancel_left "rate_limit:" _ _ h)

key_of-eq : (p q : String) → (key_of p == key_of q) ≡ (p == q)
key_of-eq p q = ground (arith, eq_iff p q, eq_iff (key_of p) (key_of q), key_of-injective p q)

pub lookup-write :
    (p q : String) (o : Option Bucket) (s : RateLimiter)
    → lookup (key_of p) (write (key_of q) o s).buckets ≡ (
        if q == p
        then (if is_some o then o else lookup (key_of p) s.buckets)
        else lookup (key_of p) s.buckets)
lookup-write p q none s = ground arith
lookup-write p q (some b) s =
    lookup-insert (key_of q) (key_of p) b s.buckets ∙ rw (key_of-eq q p) refl

pub other_kept :
    (w : ℕ) (r : Request) (s : RateLimiter) (p : String)
    → s.window_seconds ≡ w
    → Works w r.link
    → 0 < limit_of r.custom_limit s.default_limit
    → (r.principal_id == p) ≡ false
    → lookup (key_of p) (check r s).1.buckets ≡ lookup (key_of p) s.buckets
other_kept w r s p window v pos other =
    let limit = limit_of r.custom_limit s.default_limit in
    let run = check_rate_limit-IsRun w r.link r.principal_id r.custom_limit r.now s v window pos in
    ap (lookup (key_of p)) run.written
    ∙ lookup-write p r.principal_id (run_of w r.link r.principal_id limit r.now s).1 s
    ∙ rw other refl
