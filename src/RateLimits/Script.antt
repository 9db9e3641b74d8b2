-- ===== src/RateLimits/Script.antt =====
-- What one run of the Lua script does to the number of tokens.
use native.Mathlib.Nat.{
  div-mul-le_self, le_trans, le-div_iff_mul-le, mul-le-mul_left, mul-le-mul_right,
}
use ploston_core.Prelude.{ℕ, ◌+◌, ◌-◌, ◌*◌, ◌/◌, ◌≤◌, ◌<◌, arith}
use ploston_core.RateLimits.{Bucket, refilled}

refilled-le :
    (limit w now : ℕ) (b : Bucket)
    → b.last_refill ≤ now
    → refilled limit w now b ≤ b.tokens + (now - b.last_refill) * limit / w
unfolding refilled
refilled-le limit w now b time = ground arith

-- The tokens that are refilled by a limit of at most `most` are worth at most the time that passed.
pub refilled-le_budget :
    (limit most w now : ℕ) (b : Bucket)
    → limit ≤ most
    → b.last_refill ≤ now
    → refilled limit w now b * w ≤ b.tokens * w + (now - b.last_refill) * most
refilled-le_budget limit most w now b le time =
    let e = now - b.last_refill in
    grind (
      arith,
      mul-le-mul_right w (refilled-le limit w now b time),
      div-mul-le_self (e * limit) w,
      mul-le-mul_left e le,
    )

pub refilled-le_limit : (limit w now : ℕ) (b : Bucket) → refilled limit w now b ≤ limit
unfolding refilled
refilled-le_limit limit w now b = ground arith

-- After enough time a refill leaves a token, whatever was left.
pub refilled-pos :
    (limit w now wait : ℕ) (b : Bucket)
    → 0 < limit
    → 0 < w
    → w ≤ wait * limit
    → b.last_refill + wait ≤ now
    → 0 < refilled limit w now b
unfolding refilled
refilled-pos limit w now wait b pos window worth time =
    let e = now - b.last_refill in
    let late : wait ≤ e = omega arith in
    let enough : w ≤ e * limit = le_trans worth (mul-le-mul_right limit late) in
    ground
      (arith, (le-div_iff_mul-le {k = w} {x = 1} {y = e * limit} window).1 (omega (arith, enough)))
