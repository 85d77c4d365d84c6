-- ===== src/Gateway/RateLimit.antt =====
-- services/guardrail-gateway/app/gateway/ratelimit.py. Times are milliseconds, and a token is 60000
-- units, so that a bucket gains as many units in a millisecond as its limit allows requests in a
-- minute. The program computes the same amounts in floating point, in seconds. A negative limit
-- reads as zero.
pub mod Roomy
pub mod Credit
pub mod Bounded
use policy_guardrails_agent.Prelude.{
  if◌then◌else◌, ltb, leb, is_some, length, take, str_eq, lookup, put, ℕ, ◌+◌, ◌-◌, ◌*◌, ◌/◌, min,
  max, String, Bool, true, false, not, ◌&&◌, Option, none, some, List, [], ◌∷◌, sorted_by,
}
use policy_guardrails_agent.Session.Keys.{string_eq}

pub record Bucket : Type 0 where
  pub tokens : ℕ
  pub last : ℕ

pub record RateLimiter : Type 0 where
  pub default : ℕ
  pub max_keys : ℕ
  pub buckets : List (String × Bucket)

-- one token, and the milliseconds in which a bucket fills
abbrev pub unit : ℕ
unit = 60000

-- RateLimiter.limit_for
abbrev pub limit_for : RateLimiter → Option ℕ → ℕ
limit_for r none = r.default
limit_for r (some n) = n

abbrev pub capacity : ℕ → ℕ
capacity per_minute = per_minute * unit

abbrev pub bucket_or_full : ℕ → ℕ → Option Bucket → Bucket
bucket_or_full per_minute now none = record { tokens = capacity per_minute; last = now }
bucket_or_full per_minute now (some b) = b

-- min(capacity, tokens + (now - last) * rate)
unfoldable pub refilled : ℕ → ℕ → Bucket → ℕ
refilled per_minute now b = min (capacity per_minute) (b.tokens + (now - b.last) * per_minute)

-- whether the request is allowed, and the bucket behind it
unfoldable pub spend : ℕ → ℕ → Bucket → Bool × Bucket
unfolding refilled
spend per_minute now b =
    let tokens = refilled per_minute now b in
    if leb unit tokens
    then (true, record { tokens = tokens - unit; last = now })
    else (false, record { tokens = tokens; last = now })

-- now - v[1] < 60.0
abbrev pub is_recent : ℕ → Bucket → Bool
is_recent now b = ltb now (b.last + unit)

abbrev pub recent : ℕ → List (String × Bucket) → List (String × Bucket)
recent now [] = []
recent now ((k, b) ∷ d) = let rest = recent now d in if is_recent now b then (k, b) ∷ rest else rest

-- the most recently used first
abbrev pub used_before : String × Bucket → String × Bucket → Bool
used_before (k, a) (j, b) = ltb a.last b.last

-- RateLimiter._evict
unfoldable pub evict : ℕ → RateLimiter → RateLimiter
evict now r =
    let active = recent now r.buckets in
    if ltb r.max_keys (length active)
    then record r { buckets = take (r.max_keys / 2) (sorted_by used_before active) }
    else record r { buckets = active }

-- (1.0 - tokens) / rate in milliseconds, rounded down, and at least one
abbrev pub wait_for : ℕ → ℕ → Option ℕ
wait_for per_minute tokens = some (max 1 ((unit - tokens) / per_minute))

-- RateLimiter.check: none when allowed, else the time to wait
unfoldable pub check : String → Option ℕ → ℕ → RateLimiter → Option ℕ × RateLimiter
unfolding spend evict
check key_id override now r =
    let per_minute = limit_for r override in
    let (allowed, b) =
      spend per_minute now (bucket_or_full per_minute now (lookup key_id r.buckets)) in
    let kept = record r { buckets = put key_id b r.buckets } in
    let after = if ltb kept.max_keys (length kept.buckets) then evict now kept else kept in
    if leb per_minute 0
    then (none, r)
    else (if allowed then none else wait_for per_minute b.tokens, after)

-- how many of these checks let the key through; a key's own limit does not change
unfoldable pub check_all :
    (String → Option ℕ) → String → List (String × ℕ) → RateLimiter → ℕ × RateLimiter
unfolding check
check_all limits key_id [] r = (0, r)
check_all limits key_id ((k, now) ∷ calls) r =
    let (answer, r') = check k (limits k) now r in
    let (n, last) = check_all limits key_id calls r' in
    ((if str_eq k key_id && not (is_some answer) then 1 else 0) + n, last)

-- RateLimiter after a start
abbrev pub fresh_limiter : ℕ → ℕ → RateLimiter
fresh_limiter default max_keys = record { default = default; max_keys = max_keys; buckets = [] }
