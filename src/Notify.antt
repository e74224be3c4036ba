-- ===== src/Notify.antt =====
-- The rate limiter of notification mails: dayshield-core/src/notify/rate_limit.rs. An `Instant` is a
-- number of nanoseconds.
pub mod Limits
mod Tests
use dayshield_core.Base.{
  ℕ, suc, ◌+◌, ◌-◌, ◌/◌, ◌^◌, Bool, true, false, List, [], ◌∷◌, leb, ltb, if◌then◌else◌,
}

pub record RateLimiter : Type 0 where
  pub max_per_minute : ℕ
  pub tokens : ℕ
  pub last_refill : ℕ

abbrev pub second : ℕ
second = 1000000000

abbrev pub new : ℕ → ℕ → RateLimiter
new now max_per_minute = record {
  max_per_minute = max_per_minute;
  tokens = max_per_minute;
  last_refill = now;
}

-- a full bucket, if a minute has passed
pub refill : ℕ → RateLimiter → RateLimiter
refill now r =
    if leb 60 ((now - r.last_refill) / second)
    then record r { tokens = r.max_per_minute; last_refill = now }
    else r

pub take_token : RateLimiter → Bool × RateLimiter
take_token r = if ltb 0 r.tokens then (true, record r { tokens = r.tokens - 1 }) else (false, r)

pub check : ℕ → RateLimiter → Bool × RateLimiter
unfolding refill take_token
check now r = take_token (refill now r)

-- how many of the calls at these times are allowed
pub allowed : List ℕ → RateLimiter → ℕ
unfolding check
allowed [] r = 0
allowed (now ∷ times) r =
    let (ok, r') = check now r in let rest = allowed times r' in if ok then suc rest else rest
