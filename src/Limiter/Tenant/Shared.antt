-- ===== src/Limiter/Tenant/Shared.antt =====
-- The tenant limiter does what the limiter of the engine does, with an exception of its own.
use nexus_llm_router.Prelude.{
  ℕ, ◌-◌, ◌*◌, ◌≤◌, ◌≡◌, refl, String, false, Result, err, rate_limit_exceeded,
  tenant_rate_limit_exceeded, Bool-cases, inl, inr, ltb, str_eq, arith, List, [], ◌∷◌,
}
use nexus_llm_router.Prelude.Int.{pos, leb_ℤ}
use nexus_llm_router.Prelude.Dict
use nexus_llm_router.Prelude.Dict.{put-put}
use nexus_llm_router.Limiter.{Bucket, TokenBucketRateLimiter, refilled}
use nexus_llm_router.Limiter
use nexus_llm_router.Limiter.Tenant
use nexus_llm_router.Limiter.Tenant.{TenantRateLimiter, refill_locked}

-- The same buckets under the engine's limiter.
abbrev pub as_limiter : TenantRateLimiter → TokenBucketRateLimiter
as_limiter r = record {
  capacity = r.capacity;
  refill = r.refill;
  token_parts = r.token_parts;
  buckets = r.buckets;
}

-- The answers with the exception class of the tenant limiter.
abbrev pub for_tenant : Result (Unit {0}) → Result (Unit {0})
for_tenant (err rate_limit_exceeded) = err tenant_rate_limit_exceeded
for_tenant answer = answer

assert_allowed_step :
    (r : TenantRateLimiter) (tenant : String) (n now : ℕ)
    → str_eq tenant "" ≡ false
    → 1 ≤ n
    → let (a, r') = Tenant.assert_allowed tenant (pos n) now r in
      let (b, l) = Limiter.assert_allowed tenant n now (as_limiter r) in
      (a ≡ for_tenant b) × (as_limiter r' ≡ l)
unfolding Tenant.assert_allowed refill_locked Limiter.assert_allowed refilled
assert_allowed_step r tenant n now named some_tokens =
    let fresh : Bucket = record { tokens = r.capacity; updated_at = now } in
    let (bucket, d) = Dict.setdefault r.buckets tenant fresh in
    let b = refilled r.capacity r.refill now bucket in
    let one : leb_ℤ (pos n) (pos 0) ≡ false = ground arith in
    elim (Bool-cases (ltb b.tokens (n * r.token_parts))) [
      | inl short ↦ rw (named, one, short) (refl, refl)
      | inr enough ↦
          rw
            (
              named,
              one,
              enough,
              put-put d tenant b (record b { tokens = b.tokens - n * r.token_parts }),
            )
            (refl, refl)
    ]

-- A call for a tenant, with the reading of the clock.
pub record Call : Type 0 where
  pub tenant : String
  pub tokens : ℕ
  pub now : ℕ

-- Tenants have names, and every call is for at least one token.
abbrev pub IsProper : List Call → Type 0
IsProper [] = Unit {0}
IsProper (c ∷ cs) = ((str_eq c.tenant "" ≡ false) × (1 ≤ c.tokens)) × IsProper cs

-- The answers to the calls, in their order, and the limiter at the end.
unfoldable pub run_tenant :
    List Call → TenantRateLimiter → List (Result (Unit {0})) × TenantRateLimiter
run_tenant [] r = ([], r)
run_tenant (c ∷ cs) r =
    let (a, r') = Tenant.assert_allowed c.tenant (pos c.tokens) c.now r in
    let (answers, r'') = run_tenant cs r' in (a ∷ answers, r'')

unfoldable pub run_limiter :
    List Call → TokenBucketRateLimiter → List (Result (Unit {0})) × TokenBucketRateLimiter
run_limiter [] r = ([], r)
run_limiter (c ∷ cs) r =
    let (a, r') = Limiter.assert_allowed c.tenant c.tokens c.now r in
    let (answers, r'') = run_limiter cs r' in (for_tenant a ∷ answers, r'')

-- Through any calls, for tenants with names and at least one token each, `TenantRateLimiter` grants and
-- refuses as `TokenBucketRateLimiter` with the same buckets does, with `TenantRateLimitExceededError` in
-- place of `RateLimitExceededError`, and both end with the same buckets.
pub assert_allowed_shared :
    (cs : List Call) (r : TenantRateLimiter)
    → IsProper cs
    → ((run_tenant cs r).0 ≡ (run_limiter cs (as_limiter r)).0)
      × (as_limiter (run_tenant cs r).1 ≡ (run_limiter cs (as_limiter r)).1)
unfolding run_tenant run_limiter
assert_allowed_shared [] r h = (refl, refl)
assert_allowed_shared (c ∷ cs) r h =
    let here = assert_allowed_step r c.tenant c.tokens c.now h.0.0 h.0.1 in
    let r' = (Tenant.assert_allowed c.tenant (pos c.tokens) c.now r).1 in
    let rest = assert_allowed_shared cs r' h.1 in rw (here.0, ← here.1, rest.0, rest.1) (refl, refl)
