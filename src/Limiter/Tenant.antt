-- ===== src/Limiter/Tenant.antt =====
-- safety/tenant_rate_limiter.py: `TenantRateLimiter`. The lock of the class makes each method one
-- step. Tokens are in parts, as in the limiter above it.
pub mod Shared
use nexus_llm_router.Prelude.{
  ℕ, ◌+◌, ◌-◌, ◌*◌, min, String, Result, Exec, ok, err, tenant_rate_limit_exceeded, value_error,
  ltb, if◌then◌else◌, [], str_eq,
}
use nexus_llm_router.Prelude.Int.{ℤ, pos, pos_part, leb_ℤ}
use nexus_llm_router.Prelude.Dict
use nexus_llm_router.Prelude.Dict.{Dict, get_or-put}
use nexus_llm_router.Limiter.{Bucket}

pub record TenantRateLimiter : Type 0 where
  pub capacity : ℕ
  pub refill : ℕ
  pub token_parts : ℕ
  pub buckets : Dict Bucket

-- `__init__` with its two checks
unfoldable pub init : ℤ → ℤ → ℕ → Result TenantRateLimiter
init capacity refill token_parts =
    if leb_ℤ capacity (pos 0)
    then err value_error
    else if leb_ℤ refill (pos 0)
    then err value_error
    else ok (record {
      capacity = pos_part capacity * token_parts;
      refill = pos_part refill;
      token_parts = token_parts;
      buckets = [];
    })

-- `_refill_locked`: the refilled bucket, which the dict now holds
unfoldable pub refill_locked : String → ℕ → TenantRateLimiter → Bucket × TenantRateLimiter
refill_locked tenant_id now r =
    let fresh : Bucket = record { tokens = r.capacity; updated_at = now } in
    let (bucket, buckets) = Dict.setdefault r.buckets tenant_id fresh in
    let bucket' : Bucket = record {
      tokens = min r.capacity (bucket.tokens + (now - bucket.updated_at) * r.refill);
      updated_at = now;
    } in
    (bucket', record r { buckets = Dict.put buckets tenant_id bucket' })

unfoldable pub assert_allowed : String → ℤ → ℕ → Exec TenantRateLimiter (Unit {0})
unfolding refill_locked
assert_allowed tenant_id tokens now r =
    if str_eq tenant_id ""
    then (err value_error, r)
    else if leb_ℤ tokens (pos 0)
    then (err value_error, r)
    else let (bucket, r') = refill_locked tenant_id now r in
      let cost = pos_part tokens * r.token_parts in
      if ltb bucket.tokens cost then (err tenant_rate_limit_exceeded, r') else (
        ok tt,
        record r' {
          buckets = Dict.put r'.buckets tenant_id (record bucket { tokens = bucket.tokens - cost });
        },
      )

unfoldable pub remaining : String → ℕ → Exec TenantRateLimiter ℕ
unfolding refill_locked
remaining tenant_id now r =
    if str_eq tenant_id ""
    then (err value_error, r)
    else let (bucket, r') = refill_locked tenant_id now r in (ok bucket.tokens, r')
