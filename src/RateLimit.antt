-- ===== src/RateLimit.antt =====
-- api/src/common/rate-limit: the limits, and the limiter over Redis, which is a parameter with a
-- state of its own.
pub mod Window
mod Tests
use sobkichu.Prelude.{
  ℕ, ◌-◌, ◌*◌, Bool, true, Option, none, some, ◌++◌, leb, if◌then◌else◌, ℤ, pos, ltb_ℤ, Text, lit,
}

-- INCR, EXPIRE with NX and TTL in one MULTI: the replies of the first and the last, or nothing where
-- the call throws.
pub record Redis (State : Type 0) : Type 0 where
  pub exec : Text → ℕ → State → Option (ℕ × ℤ) × State

pub record RateLimitDecision : Type 0 where
  pub allowed : Bool
  pub remaining : ℕ
  pub reset_seconds : ℤ

pub record RateLimitPolicy : Type 0 where
  pub limit : ℕ
  pub window_seconds : ℕ

-- `RATE_LIMITS`
abbrev pub otp_request : RateLimitPolicy
otp_request = record { limit = 3; window_seconds = 15 * 60 }

abbrev pub otp_verify : RateLimitPolicy
otp_verify = record { limit = 10; window_seconds = 15 * 60 }

abbrev pub order_create : RateLimitPolicy
order_create = record { limit = 20; window_seconds = 60 * 60 }

unfoldable pub namespaced : Text → Text
unfolding lit
namespaced key = lit "ratelimit:" ++ key

-- `Math.max(0, limit - count)` is subtraction on ℕ. A call that throws lets the request pass.
unfoldable pub decide : RateLimitPolicy → Option (ℕ × ℤ) → RateLimitDecision
decide policy none = record {
  allowed = true;
  remaining = policy.limit;
  reset_seconds = pos policy.window_seconds;
}
decide policy (some (count, ttl)) = record {
  allowed = leb count policy.limit;
  remaining = policy.limit - count;
  reset_seconds = if ltb_ℤ (pos 0) ttl then ttl else pos policy.window_seconds;
}

unfoldable pub hit :
    {State : Type 0} → Redis State → Text → RateLimitPolicy → State → RateLimitDecision × State
unfolding decide namespaced
hit redis key policy state =
    let (replies, state') = redis.exec (namespaced key) policy.window_seconds state in
    (decide policy replies, state')
