-- ===== src/Limiter.antt =====
-- safety/rate_limiter.py: `TokenBucketRateLimiter`. Tokens are counted in parts: `token_parts` parts
-- make a token, and `refill` is in parts for each tick of the clock, so that the products of the
-- floating-point code are exact. `max(0.0, now - updated_at)` is the subtraction of ℕ. The engine
-- asks for one token; a negative `tokens`, which the code does not reject, is not modelled.
pub mod Tenant
pub mod Conformance
use nexus_llm_router.Prelude.{
  ℕ, ◌+◌, ◌-◌, ◌*◌, min, String, Exec, ok, err, rate_limit_exceeded, ltb, if◌then◌else◌, [],
}
use nexus_llm_router.Prelude.Dict
use nexus_llm_router.Prelude.Dict.{Dict}

pub record Bucket : Type 0 where
  pub tokens : ℕ
  pub updated_at : ℕ

pub record TokenBucketRateLimiter : Type 0 where
  pub capacity : ℕ
  pub refill : ℕ
  pub token_parts : ℕ
  pub buckets : Dict Bucket

-- `TokenBucketRateLimiter(capacity, refill_per_second)`
abbrev pub init : ℕ → ℕ → ℕ → TokenBucketRateLimiter
init capacity refill token_parts = record {
  capacity = capacity * token_parts;
  refill = refill;
  token_parts = token_parts;
  buckets = [];
}

-- The bucket after `bucket.tokens = min(capacity, …)` and `bucket.updated_at = now`.
unfoldable pub refilled : ℕ → ℕ → ℕ → Bucket → Bucket
refilled capacity refill now bucket = record {
  tokens = min capacity (bucket.tokens + (now - bucket.updated_at) * refill);
  updated_at = now;
}

unfoldable pub assert_allowed : String → ℕ → ℕ → Exec TokenBucketRateLimiter (Unit {0})
assert_allowed api_key_id tokens now r =
    let fresh : Bucket = record { tokens = r.capacity; updated_at = now } in
    let (bucket, buckets) = Dict.setdefault r.buckets api_key_id fresh in
    let bucket' = refilled r.capacity r.refill now bucket in
    let cost = tokens * r.token_parts in
    if ltb bucket'.tokens cost
    then (err rate_limit_exceeded, record r { buckets = Dict.put buckets api_key_id bucket' })
    else (
      ok tt,
      record r {
        buckets = Dict.put buckets api_key_id (record bucket' { tokens = bucket'.tokens - cost });
      },
    )
