-- ===== src/RateLimits/Calls.antt =====
-- A call of `check_rate_limit` with a link that works is a run of the script at the principal's key.
use ploston_core.Prelude.{
  ℕ, zero, suc, ◌+◌, ◌*◌, ◌≤◌, ◌<◌, ◌≡◌, refl, ap, ◌∙◌, String, Bool, true, false, Option, none,
  some, arith, truthy, Bool-cases, inl, inr,
}
use ploston_core.Prelude.Assoc.{lookup, insert}
use ploston_core.Errors.{ok}
use ploston_core.RateLimits.{
  Bucket, Reply, Link, RateLimiter, run_script, found_at, write, key_of, ensure_script, limit_of,
  verdict, reply_of, evalsha, check_rate_limit,
}

-- Redis is connected, has the script and answers, and drops no key before its time is over.
pub record Works (w : ℕ) (link : Link) : Type 0 where
  pub connected : link.connected ≡ true
  pub client : link.client ≡ true
  pub sha : String
  pub loads : link.script_load ≡ ok sha
  pub named : truthy (some sha) ≡ true
  pub answers : link.reply ≡ Reply.answered
  pub keeps : (now : ℕ) (b : Bucket) → link.alive now b ≡ false → b.last_refill + w * 2 ≤ now

-- Two limiters that differ at most in the cached script.
pub record SameSettings (s t : RateLimiter) : Type 0 where
  pub buckets : t.buckets ≡ s.buckets
  pub window_seconds : t.window_seconds ≡ s.window_seconds
  pub default_limit : t.default_limit ≡ s.default_limit

ensure_script-Works :
    (w : ℕ) (link : Link) (s : RateLimiter)
    → Works w link
    → (truthy (ensure_script link s).0 ≡ true) × SameSettings s (ensure_script link s).1
unfolding ensure_script
ensure_script-Works w link s v = elim (Bool-cases (truthy s.script_sha)) [
  | inl cached ↦
      rw (ensure_script, cached)
        (cached, record { buckets = refl; window_seconds = refl; default_limit = refl })
  | inr fresh ↦
      rw (ensure_script, fresh, v.connected, v.client, v.loads)
        (v.named, record { buckets = refl; window_seconds = refl; default_limit = refl })
]

-- The run of the script of a working call.
abbrev pub run_of : ℕ → Link → String → ℕ → ℕ → RateLimiter → Bool × Option Bucket
run_of w link p limit now s =
    run_script limit w now (found_at link now (lookup (key_of p) s.buckets))

-- What a working call answers and writes.
pub record IsRun (w : ℕ) (link : Link) (p : String) (limit now : ℕ) (s : RateLimiter)
    (r : (Bool × ℕ) × RateLimiter) : Type 0 where
  pub answer : r.0.0 ≡ (run_of w link p limit now s).0
  pub written : r.1.buckets ≡ (write (key_of p) (run_of w link p limit now s).1 s).buckets
  pub window : r.1.window_seconds ≡ w
  pub default : r.1.default_limit ≡ s.default_limit

verdict-answer :
    (limit : ℕ) (s : RateLimiter) (b : Bool) → 0 < limit → (verdict Reply.answered limit s b).0 ≡ b
unfolding verdict
verdict-answer limit s true h = ground arith
verdict-answer zero s false h = absurd (omega arith)
verdict-answer (suc n) s false h = refl

write-buckets :
    (k : String) (o : Option Bucket) (s t : RateLimiter)
    → t.buckets ≡ s.buckets
    → (write k o t).buckets ≡ (write k o s).buckets
write-buckets k none s t h = h
write-buckets k (some b) s t h = ap (insert k b) h

write-settings :
    (k : String) (o : Option Bucket) (t : RateLimiter)
    → ((write k o t).window_seconds ≡ t.window_seconds)
      × ((write k o t).default_limit ≡ t.default_limit)
write-settings k none t = (refl, refl)
write-settings k (some b) t = (refl, refl)

check_rate_limit-evalsha :
    (w : ℕ) (link : Link) (p : String) (custom : Option ℕ) (now : ℕ) (s : RateLimiter)
    → Works w link
    → check_rate_limit link p custom now s
      ≡ evalsha link (key_of p) (limit_of custom s.default_limit) now (ensure_script link s).1
unfolding check_rate_limit
check_rate_limit-evalsha w link p custom now s v =
    simp (v.connected, (ensure_script-Works w link s v).0)

evalsha-IsRun :
    (w : ℕ) (link : Link) (p : String) (limit now : ℕ) (s t : RateLimiter)
    → reply_of link ≡ Reply.answered
    → SameSettings s t
    → s.window_seconds ≡ w
    → 0 < limit
    → IsRun w link p limit now s (evalsha link (key_of p) limit now t)
unfolding evalsha
evalsha-IsRun w link p limit now s t answers same window pos =
    let out = run_of w link p limit now s in
    let run : run_of t.window_seconds link p limit now t ≡ out =
      simp (same.window_seconds, window, same.buckets) in
    record {
      answer = simp (answers, verdict-answer limit t _ pos, run);
      written = simp (answers, run) (write-buckets (key_of p) out.1 s t same.buckets);
      window =
          simp (answers, run)
            ((write-settings (key_of p) out.1 t).0 ∙ same.window_seconds ∙ window);
      default = simp (answers, run) ((write-settings (key_of p) out.1 t).1 ∙ same.default_limit);
    }

pub check_rate_limit-IsRun :
    (w : ℕ) (link : Link) (p : String) (custom : Option ℕ) (now : ℕ) (s : RateLimiter)
    → Works w link
    → s.window_seconds ≡ w
    → 0 < limit_of custom s.default_limit
    → IsRun w link p (limit_of custom s.default_limit) now s (check_rate_limit link p custom now s)
check_rate_limit-IsRun w link p custom now s v window pos =
    let limit = limit_of custom s.default_limit in
    rw (check_rate_limit-evalsha w link p custom now s v) (
      evalsha-IsRun w link p limit now s (ensure_script link s).1 (rw v.client v.answers)
        (ensure_script-Works w link s v).1 window pos)
