-- ===== src/Engine/Respond.antt =====
-- `_respond` of router/engine.py.
use nexus_llm_router.Prelude.{
  ℕ, ◌-◌, ◌*◌, String, Bool, true, false, Exec, storage_error, validation_error, [], ◌∷◌, ◌++◌,
  if◌then◌else◌, str_eq,
}
use nexus_llm_router.Prelude.Int.{ℤ, pos, pos_part, ltb_ℤ, ◌+ℤ◌}
use nexus_llm_router.Prelude.Action.{pure, gets, raise_unless, zoom, ◌>>=◌, ◌>>◌}
use nexus_llm_router.Prelude.Ratio.{ratio}
use nexus_llm_router.Lifecycle.{RequestState, responded}
use nexus_llm_router.Schemas.{
  RouterRequest, TaskSignals, ProviderResponse, RouterResponse, AuditRecord, StrategyName,
  valid_counts,
}
use nexus_llm_router.Engine.State.{
  NexusRouter, World, Run, SpendRecord, begun, reset_at, answered, scored, logged, charged,
  family_at, hourly_at, tokens_at,
}
use nexus_llm_router.Breaker
use nexus_llm_router.Budget
use nexus_llm_router.Scoreboard
use nexus_llm_router.Stats.Outcomes.Success
use nexus_llm_router.Stats.Outcomes.Weights
use nexus_llm_router.Stats.Outcomes.Resets
use nexus_llm_router.Stats.Samples.Latency
use nexus_llm_router.Stats.Samples.RateLimits
use nexus_llm_router.Stats.Samples.CostAnomaly
use nexus_llm_router.Stats.Cooldown
use nexus_llm_router.Stats.Regions
use nexus_llm_router.Stats.Windows.Family
use nexus_llm_router.Stats.Windows.Hourly
use nexus_llm_router.Stats.Windows.TokenRpm
use nexus_llm_router.Stats.Windows.Cascade
use nexus_llm_router.Engine.Request.{move, in_router, change, tenant_inflight_key, region_label}

-- `_respond` up to its transition: the provider is healthy.
unfoldable pub mark_success : ℕ → String → NexusRouter → NexusRouter
mark_success now provider r = record r {
  circuit_breakers = Breaker.record_success provider r.circuit_breakers;
  success_stats = Success.observe provider true r.success_stats;
  error_budget_resets = Resets.observe provider true now r.error_budget_resets;
  weight_stats = Weights.observe provider true r.weight_stats;
  rate_limit_stats = RateLimits.observe provider false r.rate_limit_stats;
  cooldown = Cooldown.clear provider r.cooldown;
}

-- The rolling latencies and the user's spend.
unfoldable pub note_answer :
    ℕ → String → RouterRequest → ProviderResponse → NexusRouter → NexusRouter
note_answer latency provider request response r = record r {
  latency_stats = Latency.observe provider latency r.latency_stats;
  slope_stats = Latency.observe_slope provider latency r.slope_stats;
  budget_guardrail = Budget.record_spend request.user_id response.cost r.budget_guardrail;
}

-- `SpendLedger.record`: the row that it inserts.
unfoldable pub ledger_row : ℕ → String → RouterRequest → ProviderResponse → SpendRecord
ledger_row now provider request response = record {
  request_id = request.request_id;
  tenant = if str_eq request.user_id "" then "anonymous" else request.user_id;
  provider = provider;
  model = response.model;
  cost = response.cost;
  input_tokens = response.input_tokens;
  output_tokens = response.output_tokens;
  recorded_at = now;
}

-- The spend windows of the provider.
unfoldable pub note_spend : ℕ → ℕ → String → ProviderResponse → NexusRouter → NexusRouter
note_spend family_now hourly_now provider response r = record r {
  family_window = Family.record_spend provider response.cost family_now r.family_window;
  hourly_window = Hourly.record_spend provider response.cost hourly_now r.hourly_window;
}

-- The region's streak, and the cost for 1000 tokens where there were any.
unfoldable pub note_region : RouterRequest → ProviderResponse → NexusRouter → NexusRouter
unfolding region_label
note_region request response r =
    let total_tokens = response.input_tokens +ℤ response.output_tokens in
    record r {
      region_stats = Regions.record_success (region_label request) r.region_stats;
      cost_anomaly =
          if ltb_ℤ (pos 0) total_tokens
          then CostAnomaly.observe (ratio (response.cost * 1000) (pos_part total_tokens))
              r.cost_anomaly
          else r.cost_anomaly;
    }

unfoldable pub router_response :
    ℕ → StrategyName → String → RouterRequest → ProviderResponse → RouterResponse
router_response latency strategy_name rationale request response = record {
  content = response.content;
  model_used = response.model;
  routing_strategy = strategy_name;
  latency = latency;
  input_tokens = response.input_tokens;
  output_tokens = response.output_tokens;
  cost = response.cost;
  rationale = rationale;
  request_id = request.request_id;
  finish_reason = response.finish_reason;
}

unfoldable pub audit_record :
    ℕ
    → StrategyName
    → String
    → String
    → RouterRequest
    → ProviderResponse
    → RequestState
    → AuditRecord
audit_record latency strategy_name rationale provider request response state = record {
  request_id = request.request_id;
  chosen_model = response.model;
  provider = provider;
  routing_strategy = strategy_name;
  rationale = rationale;
  latency = latency;
  token_cost = response.cost;
  input_tokens = response.input_tokens;
  output_tokens = response.output_tokens;
  state = state;
}

-- The calls of the scoreboard, the tenant windows and the token window may raise.
abbrev pub score_outcome : String → Bool → ℤ → Exec Run (Unit {0})
score_outcome provider success latency = in_router (
    zoom (λ r. r.scoreboard) (λ b r. record r { scoreboard = b })
      (Scoreboard.record_outcome provider success latency))

abbrev pub charge_tenant : String → ℤ → ℕ → Exec Run (Unit {0})
charge_tenant tenant amount now = in_router (
    zoom (λ r. r.tenant_cascade) (λ b r. record r { tenant_cascade = b })
      (Cascade.record_spend tenant amount now))

abbrev pub count_tokens : String → ℤ → ℕ → Exec Run (Unit {0})
count_tokens provider tokens now = in_router (
    zoom (λ r. r.token_window) (λ b r. record r { token_window = b })
      (TokenRpm.record_tokens provider tokens now))

-- The latency of the answer; the clock does not go back.
abbrev pub latency_of : World → ℕ → ℕ
latency_of w i = w.clock i answered - w.started

-- `_respond` up to the user's spend: the provider and the request have succeeded.
unfoldable pub credit : World → ℕ → RouterRequest → String → ProviderResponse → Exec Run (Unit {0})
credit w i request provider response = do
  change (mark_success (w.clock i reset_at) provider)
  move responded
  score_outcome provider true (pos (w.clock i scored - w.clock i begun))
  change (note_answer (latency_of w i) provider request response)

-- The ledger, the spend windows and the region.
unfoldable pub book :
    World → ℕ → RouterRequest → TaskSignals → String → ProviderResponse → Exec Run (Unit {0})
book w i request signals provider response = do
  raise_unless (w.ledger_works i) storage_error
  change (λ r. record r {
    spend_ledger = r.spend_ledger ++ ledger_row (w.clock i logged) provider request response ∷ [];
  })
  charge_tenant (tenant_inflight_key request) (pos response.cost) (w.clock i charged)
  change (note_spend (w.clock i family_at) (w.clock i hourly_at) provider response)
  count_tokens provider (pos signals.prompt_tokens_estimate) (w.clock i tokens_at)
  change (note_region request response)

-- `self._audit_log.append(…)`
unfoldable pub write_audit :
    World
    → ℕ
    → RouterRequest
    → StrategyName
    → String
    → String
    → ProviderResponse
    → Exec Run (Unit {0})
write_audit w i request strategy_name rationale provider response = do
  raise_unless (w.audit_works i) storage_error
  state ← gets (λ s. s.current_state)
  change (λ r. record r {
    audit_log =
        r.audit_log
        ++ audit_record (latency_of w i) strategy_name rationale provider request response state
          ∷ [];
  })

-- `_respond`: `RouterResponse(…)` stands between the two writes, and refuses a negative count
unfoldable pub respond :
    World
    → ℕ
    → RouterRequest
    → TaskSignals
    → StrategyName
    → String
    → String
    → ProviderResponse
    → Exec Run RouterResponse
respond w i request signals strategy_name rationale provider response = do
  credit w i request provider response
  book w i request signals provider response
  raise_unless (valid_counts response) validation_error
  write_audit w i request strategy_name rationale provider response
  pure (router_response (latency_of w i) strategy_name rationale request response)
