-- ===== src/Strategies/Health.antt =====
-- `ReliabilityAwareStrategy` and `SoftRateLimitStrategy` of router/strategies.py. The health of the
-- providers is the read `is_available` of the protocol `ProviderHealth`.
use nexus_llm_router.Prelude.{String, Bool, not, Result, List, [], ◌∷◌, ◌++◌}
use nexus_llm_router.Prelude.Choice.{keep, take, sort_by, then_by, by, by_flag, by_ratio}
use nexus_llm_router.Schemas.{RouterRequest, TaskSignals, ModelCandidate, RoutingDecision}
use nexus_llm_router.Stats.Samples.RateLimits.{RateLimitStats, rate_limit_count, rate_limit_rate}
use nexus_llm_router.Strategies.Base.{
  Catalog, values, by_quality, decision, eligible, names, without, request_cost, min_by, and_then,
  or_else, head_decision,
}
use nexus_llm_router.Strategies.Load.{by_merit}

-- `ProviderHealth.is_available`
abbrev pub Health : Type 0
Health = String → Bool

unfoldable pub is_healthy : Health → ModelCandidate → Bool
is_healthy health c = health c.provider

-- `ReliabilityAwareStrategy._fallback_chain`
unfoldable pub healthy_fallback_chain : Catalog → Health → String → List String
unfolding values without is_healthy
healthy_fallback_chain catalog health chosen_model = take 3 (
    names (
      sort_by (then_by (by_flag (λ c. not (is_healthy health c))) by_quality)
        (without chosen_model (values catalog))))

-- `max` by quality and the lower cost
unfoldable pub by_value : RouterRequest → TaskSignals → ModelCandidate → ModelCandidate → Bool
by_value request signals = then_by by_quality (by (request_cost request signals))

-- the candidate that `ReliabilityAwareStrategy.choose` selects
unfoldable pub reliable_candidate :
    Health → RouterRequest → TaskSignals → List ModelCandidate → Result ModelCandidate
unfolding is_healthy by_value min_by
reliable_candidate health request signals pool =
    min_by (by_value request signals) (or_else (keep (is_healthy health) pool) pool)

-- `ReliabilityAwareStrategy.choose`
unfoldable pub reliability_aware :
    Catalog
    → Health
    → (ModelCandidate → String)
    → RouterRequest
    → TaskSignals
    → Result RoutingDecision
unfolding eligible reliable_candidate decision healthy_fallback_chain
reliability_aware catalog health explain request signals =
    and_then (reliable_candidate health request signals (eligible catalog signals)) (λ c.
      decision catalog (healthy_fallback_chain catalog health) "reliability-aware" c.model
        (explain c))

-- the key of `_rate_limit_ordered_candidates`
unfoldable pub by_pressure :
    RateLimitStats → RouterRequest → TaskSignals → ModelCandidate → ModelCandidate → Bool
by_pressure stats request signals =
    then_by (by (λ c. rate_limit_count stats c.provider))
      (then_by (by_ratio (λ c. rate_limit_rate stats c.provider)) (by_merit request signals))

-- The healthy candidates, then the others; where none is healthy, all of them. A candidate that is not
-- healthy is not in a pool of healthy ones, which is what `candidate not in primary_pool` asks.
abbrev pub in_two :
    (ModelCandidate → ModelCandidate → Bool)
    → List ModelCandidate
    → List ModelCandidate
    → List ModelCandidate
    → List ModelCandidate
in_two before [] unhealthy all = sort_by before all
in_two before (h ∷ hs) unhealthy all = sort_by before (h ∷ hs) ++ sort_by before unhealthy

-- `_rate_limit_ordered_candidates`
unfoldable pub rate_limit_ordered :
    Health
    → RateLimitStats
    → RouterRequest
    → TaskSignals
    → List ModelCandidate
    → List ModelCandidate
unfolding is_healthy by_pressure
rate_limit_ordered health stats request signals pool =
    in_two (by_pressure stats request signals) (keep (is_healthy health) pool)
      (keep (λ c. not (is_healthy health c)) pool) pool

-- `SoftRateLimitStrategy.choose`
unfoldable pub soft_rate_limit :
    Catalog
    → Health
    → RateLimitStats
    → (ModelCandidate → String)
    → RouterRequest
    → TaskSignals
    → Result RoutingDecision
unfolding eligible rate_limit_ordered head_decision
soft_rate_limit catalog health stats explain request signals =
    head_decision "soft-rate-limit" explain
      (rate_limit_ordered health stats request signals (eligible catalog signals))
