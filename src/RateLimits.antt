-- ===== src/RateLimits.antt =====
-- `RateLimiter` of src/ploston_core/auth/rate_limiter.py, with its Lua script, which Redis runs as one
-- step. What Redis does in a call is a record `Link`: its answers, and when it has dropped a key.
-- Limits and windows are natural numbers.
pub mod Script
pub mod Calls
pub mod Requests
pub mod Spending
pub mod Budget
pub mod Waits
use ploston_core.Prelude.{
  ℕ, zero, suc, ◌+◌, ◌-◌, ◌*◌, ◌/◌, min, String, Bool, true, false, ◌&&◌, not, Option, none, some,
  List, [], ◌∷◌, ltb, leb, truthy, if◌then◌else◌,
}
use ploston_core.Prelude.Assoc.{Assoc, lookup, insert}
use ploston_core.Prelude.Texts.{join}
use ploston_core.Errors.{Exc, Result, ok, err}

-- The hash at a principal's key.
pub record Bucket : Type 0 where
  pub tokens : ℕ
  pub last_refill : ℕ

-- What a call of the script meets: it runs and answers, it runs and the answer is lost, or it does
-- not run.
pub data Reply : Type 0 where
  answered lost refused : Reply

pub record Link : Type 0 where
  pub connected : Bool
  -- Whether there is a client.
  pub client : Bool
  pub script_load : Result String
  pub reply : Reply
  -- Whether Redis still has a key at a time, `EXPIRE` considered.
  pub alive : ℕ → Bucket → Bool

pub record RateLimiter : Type 0 where
  pub default_limit : ℕ
  pub window_seconds : ℕ
  pub script_sha : Option String
  -- The hashes in Redis.
  pub buckets : Assoc Bucket

-- `math.floor(elapsed * limit / window)` is added. Where the clock went back `elapsed` is negative
-- and the floor rounds away from 0; a number of tokens below 0 acts as 0 does.
unfoldable pub refilled : ℕ → ℕ → ℕ → Bucket → ℕ
refilled limit window now b =
    if leb b.last_refill now
    then min limit (b.tokens + (now - b.last_refill) * limit / window)
    else min limit (b.tokens - ((b.last_refill - now) * limit + (window - 1)) / window)

-- The tokens after the refill. A missing hash counts as full.
unfoldable pub tokens_at : ℕ → ℕ → ℕ → Option Bucket → ℕ
tokens_at limit window now none = limit
tokens_at limit window now (some b) = refilled limit window now b

-- `RATE_LIMIT_SCRIPT`: whether the request is allowed, and the hash that is written, if any.
unfoldable pub run_script : ℕ → ℕ → ℕ → Option Bucket → Bool × Option Bucket
run_script limit window now found =
    let tokens = tokens_at limit window now found in
    if ltb 0 tokens
    then (true, some (record { tokens = tokens - 1; last_refill = now }))
    else (false, none)

-- The hash that Redis finds at a key.
unfoldable pub found_at : Link → ℕ → Option Bucket → Option Bucket
found_at link now none = none
found_at link now (some b) = if link.alive now b then some b else none

abbrev pub write : String → Option Bucket → RateLimiter → RateLimiter
write key none s = s
write key (some b) s = record s { buckets = insert key b s.buckets }

abbrev pub key_of : String → String
key_of principal_id = join "" ("rate_limit:" ∷ principal_id ∷ [])

abbrev pub load_script : Result String → RateLimiter → Option String × RateLimiter
load_script (err raised) s = (none, s)
load_script (ok sha) s = (some sha, record s { script_sha = some sha })

-- `_ensure_script`
unfoldable pub ensure_script : Link → RateLimiter → Option String × RateLimiter
ensure_script link s =
    if truthy s.script_sha
    then (s.script_sha, s)
    else if link.connected && link.client
    then load_script link.script_load s
    else (none, s)

-- `custom_limit or self._default_limit`
unfoldable pub limit_of : Option ℕ → ℕ → ℕ
limit_of none default_limit = default_limit
limit_of (some zero) default_limit = default_limit
limit_of (some (suc n)) default_limit = suc n

-- What is returned for an answer. `window // 0` raises, and the handler allows the request.
unfoldable pub verdict : Reply → ℕ → RateLimiter → Bool → Bool × ℕ
verdict Reply.answered limit s true = (true, 0)
verdict Reply.answered zero s false = (true, 0)
verdict Reply.answered (suc n) s false = (false, s.window_seconds / suc n)
verdict Reply.lost limit s allowed = (true, 0)
verdict Reply.refused limit s allowed = (true, 0)

abbrev pub runs : Reply → Bool
runs Reply.refused = false
runs Reply.answered = true
runs Reply.lost = true

-- Without a client the call raises.
abbrev pub reply_of : Link → Reply
reply_of link = if link.client then link.reply else Reply.refused

-- The call of `evalsha`, with the handler of what it raises.
unfoldable pub evalsha : Link → String → ℕ → ℕ → RateLimiter → (Bool × ℕ) × RateLimiter
evalsha link key limit now s =
    let (allowed, written) =
      run_script limit s.window_seconds now (found_at link now (lookup key s.buckets)) in
    (
      verdict (reply_of link) limit s allowed,
      if runs (reply_of link) then write key written s else s,
    )

unfoldable pub check_rate_limit :
    Link → String → Option ℕ → ℕ → RateLimiter → (Bool × ℕ) × RateLimiter
check_rate_limit link principal_id custom_limit now s =
    if link.connected
    then (let (sha, t) = ensure_script link s in
        if truthy sha
        then evalsha link (key_of principal_id) (limit_of custom_limit s.default_limit) now t
        else ((true, 0), t))
    else ((true, 0), s)

-- The tokens as they were written, without a refill.
unfoldable pub written_tokens : ℕ → Option Bucket → ℕ
written_tokens default_limit none = default_limit
written_tokens default_limit (some b) = b.tokens

-- `none` also where `hget` raises.
unfoldable pub get_remaining_tokens : Link → String → ℕ → RateLimiter → Option ℕ
get_remaining_tokens link principal_id now s =
    if link.connected && link.client
    then elim link.reply [
      | Reply.answered ↦ some (
          written_tokens s.default_limit
            (found_at link now (lookup (key_of principal_id) s.buckets)))
      | _ ↦ none
    ]
    else none
