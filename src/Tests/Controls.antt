-- ===== src/Tests/Controls.antt =====
-- The slots of the tenants, the budgets of a stream and the limiter of the tenants at work.
use nexus_llm_router.Prelude.{◌+◌, ◌≡◌, refl, true, false, some, none, [], ◌∷◌, List, arith}
use nexus_llm_router.Prelude.Ratio.{ratio}
use nexus_llm_router.Prelude.Dict
use nexus_llm_router.Limiter.Tenant
use nexus_llm_router.Limiter.Tenant.Shared
use nexus_llm_router.Limiter.Tenant.Shared.{
  as_limiter, run_tenant, run_limiter, assert_allowed_shared,
}
use nexus_llm_router.Safety.Concurrency.{TenantConcurrencySlotGuard}
use nexus_llm_router.Safety.Concurrency.Slots.{
  acquired, released, IsWithinSlots, run, run-IsWithinSlots,
}
use nexus_llm_router.Safety.StreamBudget.{
  StreamingTokenBudgetGate, allow_continue, reached, observe_chunk, counted_chunk,
  evaluate_exhaustion,
}
use nexus_llm_router.Safety.StreamBudget.Stops.{observe_all, observe_all-open, sum_tokens}

abbrev slots : TenantConcurrencySlotGuard
slots = record { max = 2; near_ratio = ratio 3 4; hard_gate = true; inflight = ("acme", 1) ∷ [] }

slots-IsWithinSlots : IsWithinSlots slots
unfolding Dict.get_or
slots-IsWithinSlots tenant = ground arith

run-IsWithinSlots_example :
    IsWithinSlots (run (acquired "acme" ∷ acquired "acme" ∷ released "acme" ∷ []) slots)
run-IsWithinSlots_example =
    run-IsWithinSlots (acquired "acme" ∷ acquired "acme" ∷ released "acme" ∷ []) slots refl
      slots-IsWithinSlots

abbrev gate : StreamingTokenBudgetGate
gate = record {
  tokens_used = 0;
  cost = 0;
  max_tokens = some 10;
  max_cost = none;
  exhausted = false;
  reason = none;
}

observe_all-open_example :
    ((observe_all ((4, 1) ∷ (5, 1) ∷ []) gate).tokens_used ≡ 0 + sum_tokens ((4, 1) ∷ (5, 1) ∷ []))
    × (reached
          (observe_all ((4, 1) ∷ (5, 1) ∷ []) gate).tokens_used
          (observe_all ((4, 1) ∷ (5, 1) ∷ []) gate).max_tokens
        ≡ false)
    × (reached
          (observe_all ((4, 1) ∷ (5, 1) ∷ []) gate).cost
          (observe_all ((4, 1) ∷ (5, 1) ∷ []) gate).max_cost
        ≡ false)
unfolding observe_all observe_chunk counted_chunk evaluate_exhaustion allow_continue
observe_all-open_example = observe_all-open ((4, 1) ∷ (5, 1) ∷ []) gate (λ h. (refl, refl)) refl

abbrev tenants : Tenant.TenantRateLimiter
tenants = record { capacity = 20; refill = 1; token_parts = 10; buckets = [] }

-- The third call finds the bucket of the tenant empty.
abbrev tenant_calls : List Shared.Call
tenant_calls =
    record { tenant = "acme"; tokens = 1; now = 0 }
    ∷ record { tenant = "acme"; tokens = 1; now = 1 }
    ∷ record { tenant = "acme"; tokens = 1; now = 2 }
    ∷ []

assert_allowed_shared_example :
    ((run_tenant tenant_calls tenants).0 ≡ (run_limiter tenant_calls (as_limiter tenants)).0)
    × (as_limiter (run_tenant tenant_calls tenants).1
        ≡ (run_limiter tenant_calls (as_limiter tenants)).1)
assert_allowed_shared_example =
    assert_allowed_shared tenant_calls tenants
      ((refl, omega arith), ((refl, omega arith), ((refl, omega arith), tt)))
