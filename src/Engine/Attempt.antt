-- ===== src/Engine/Attempt.antt =====
-- One attempt of `complete` of router/engine.py: the provider call, and what its failure records.
use nexus_llm_router.Prelude.{
  ℕ, String, Bool, false, Option, none, Error, Exec, key_error, provider_error, if◌then◌else◌,
}
use nexus_llm_router.Prelude.Int.{ℤ}
use nexus_llm_router.Prelude.Action.{pure, raise, gets, raise_unless, ◌>>=◌, ◌>>◌}
use nexus_llm_router.Lifecycle.{RequestState, dispatched}
use nexus_llm_router.Schemas.{
  RouterRequest, TaskSignals, ModelCandidate, RoutingDecision, ProviderResponse, RouterResponse,
  StrategyName,
}
use nexus_llm_router.Engine.State.{
  NexusRouter, Setup, World, Run, Outcome, replied, raised, tripped, erred, cooled,
}
use nexus_llm_router.Breaker
use nexus_llm_router.Stats.Inflight
use nexus_llm_router.Stats.Outcomes.Success
use nexus_llm_router.Stats.Outcomes.Weights
use nexus_llm_router.Stats.Outcomes.Resets
use nexus_llm_router.Stats.Samples.RateLimits
use nexus_llm_router.Stats.Cooldown
use nexus_llm_router.Stats.Regions
use nexus_llm_router.Engine.Request.{
  move, change, tenant_inflight_key, rationale_text, region_label,
}
use nexus_llm_router.Engine.Respond.{respond}

-- The two counters before the call, and after it: `finally` runs however the call ends.
unfoldable pub enter_call : String → String → NexusRouter → NexusRouter
enter_call tenant provider r = record r {
  inflight_stats =
      Inflight.begin_for_tenant tenant provider (Inflight.begin provider r.inflight_stats);
}

unfoldable pub leave_call : String → String → NexusRouter → NexusRouter
leave_call tenant provider r = record r {
  inflight_stats =
      Inflight.finish provider (Inflight.finish_for_tenant tenant provider r.inflight_stats);
}

unfoldable pub answer_of : Outcome → Exec Run ProviderResponse
answer_of (replied response) = pure response
answer_of (raised failure) = raise (provider_error failure)

-- `if dispatchable_state: state_machine.transition(DISPATCHED)`
unfoldable pub dispatch_from : RequestState → Exec Run (Unit {0})
dispatch_from RequestState.routed = move dispatched
dispatch_from RequestState.fallback = move dispatched
dispatch_from _ = pure tt

abbrev pub dispatch : Exec Run (Unit {0})
dispatch = do state ← gets (λ s. s.current_state); dispatch_from state

-- The provider call between the counters.
unfoldable pub call_provider :
    Setup → World → ℕ → RouterRequest → ModelCandidate → String → Exec Run ProviderResponse
call_provider d w i request candidate model_name = do
  let tenant = tenant_inflight_key request
  change (enter_call tenant candidate.provider)
  change (w.meanwhile i)
  change (leave_call tenant candidate.provider)
  answer_of (w.call i model_name (d.scrub request.messages) request.max_tokens)

-- The second `try` of an attempt.
unfoldable pub try_attempt :
    Setup
    → World
    → ℕ
    → RouterRequest
    → TaskSignals
    → StrategyName
    → RoutingDecision
    → ModelCandidate
    → String
    → Exec Run RouterResponse
try_attempt d w i request signals strategy_name decision candidate model_name = do
  raise_unless (d.has_adapter candidate.provider) key_error
  dispatch
  response ← call_provider d w i request candidate model_name
  respond w i request signals strategy_name (rationale_text decision.rationale model_name i)
      candidate.provider response

-- `_is_rate_limit_error`, as far as the modelled exceptions go: only a provider's carries a signal.
abbrev pub is_rate_limited : Error → Bool
is_rate_limited (provider_error f) = f.rate_limited
is_rate_limited _ = false

abbrev pub retry_after : Error → Option ℤ
retry_after (provider_error f) = f.retry_after
retry_after _ = none

-- What the handler records against the provider after the scoreboard.
unfoldable pub mark_failure : World → ℕ → RouterRequest → String → Error → NexusRouter → NexusRouter
unfolding region_label
mark_failure w i request provider e r = record r {
  circuit_breakers = Breaker.record_failure provider (w.clock i tripped) r.circuit_breakers;
  success_stats = Success.observe provider false r.success_stats;
  error_budget_resets = Resets.observe provider false (w.clock i erred) r.error_budget_resets;
  weight_stats = Weights.observe provider false r.weight_stats;
  region_stats = Regions.record_failure (region_label request) r.region_stats;
  rate_limit_stats = RateLimits.observe provider (is_rate_limited e) r.rate_limit_stats;
  cooldown =
      if is_rate_limited e
      then Cooldown.set_cooldown provider (retry_after e) (w.clock i cooled) r.cooldown
      else r.cooldown;
}
