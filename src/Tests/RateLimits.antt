-- ===== src/Tests/RateLimits.antt =====
-- A limiter of 2 requests in 10 seconds.
use ploston_core.Prelude.{
  ℕ, ◌+◌, ◌-◌, ◌*◌, ◌≤◌, ◌<◌, ◌≡◌, refl, true, none, List, [], ◌∷◌, ◌++◌, arith, ltb, truthy,
}
use ploston_core.Prelude.Assoc.{lookup, insert}
use ploston_core.Prelude.Texts.{join}
use ploston_core.Errors.{ok}
use ploston_core.RateLimits.{
  Reply, Link, RateLimiter, refilled, tokens_at, run_script, found_at, ensure_script, limit_of,
  verdict, evalsha, check_rate_limit,
}
use ploston_core.RateLimits.Calls.{Works}
use ploston_core.RateLimits.Requests.{Request, allowed_to, IsLimited}
use ploston_core.RateLimits.Budget.{allowed_to-le}
use ploston_core.RateLimits.Waits.{allowed_to-pos}

-- Redis keeps a key until 20 seconds after it was written.
abbrev redis : Link
redis = record {
  connected = true;
  client = true;
  script_load = ok "a1";
  reply = Reply.answered;
  alive = λ now b. ltb now (b.last_refill + 20);
}

abbrev limiter : RateLimiter
limiter = record { default_limit = 2; window_seconds = 10; script_sha = none; buckets = [] }

abbrev ask : ℕ → Request
ask now = record { link = redis; principal_id = "usr_a"; custom_limit = none; now = now }

abbrev asked : List Request
asked = ask 100 ∷ ask 100 ∷ ask 101 ∷ ask 104 ∷ []

redis-Works : Works 10 redis
unfolding truthy
redis-Works = record {
  connected = refl;
  client = refl;
  sha = "a1";
  loads = refl;
  named = refl;
  answers = refl;
  keeps = λ now b dropped. ground (arith, dropped);
}

-- The third and the fourth request are denied: no token has come in 4 seconds.
asked_allowed : allowed_to "usr_a" asked limiter ≡ 2
unfolding allowed_to check_rate_limit evalsha ensure_script truthy run_script found_at lookup insert
    tokens_at refilled verdict limit_of join
asked_allowed = refl

asked-IsLimited : IsLimited 10 2 2 (asked ++ ask 105 ∷ [])
unfolding limit_of
asked-IsLimited = (
  redis-Works,
  omega arith,
  omega arith,
  (
    redis-Works,
    omega arith,
    omega arith,
    (
      redis-Works,
      omega arith,
      omega arith,
      (redis-Works, omega arith, omega arith, (redis-Works, omega arith, omega arith, tt)),
    ),
  ),
)

allowed_to-le_example :
    allowed_to "usr_a" (asked ++ ask 105 ∷ []) limiter * 10 ≤ 2 * 10 + (105 - 100) * 2
allowed_to-le_example =
    allowed_to-le 2 100 105 "usr_a" (asked ++ ask 105 ∷ []) limiter asked-IsLimited (omega arith)

-- `retry_after` is 5, and so long after the last token was taken one has come.
allowed_to-pos_example : 0 < allowed_to "usr_a" (asked ++ ask 105 ∷ []) limiter
unfolding lookup limit_of
allowed_to-pos_example =
    allowed_to-pos 2 100 5 asked (ask 105) limiter asked-IsLimited (omega arith) (omega arith)
      (omega arith) tt
