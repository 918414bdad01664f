-- ===== src/Engine/State.antt =====
-- The object that `NexusRouter` holds, what it is given, and the world that it calls.
use nexus_llm_router.Prelude.{ℕ, String, Bool, Option, List, Exec, Failure}
use nexus_llm_router.Prelude.Int.{ℤ}
use nexus_llm_router.Prelude.Dict.{Dict}
use nexus_llm_router.Lifecycle.{RequestState}
use nexus_llm_router.Schemas.{
  ChatMessage, RouterRequest, TaskSignals, ModelCandidate, RoutingDecision, ProviderResponse,
  AuditRecord, StrategyName,
}
use nexus_llm_router.Breaker.{CircuitBreakerRegistry}
use nexus_llm_router.Limiter.{TokenBucketRateLimiter}
use nexus_llm_router.Budget.{BudgetGuardrail}
use nexus_llm_router.Scoreboard.{ProviderFallbackScoreboard}
use nexus_llm_router.Stats.Inflight.{InflightStats}
use nexus_llm_router.Stats.Outcomes.Success.{SuccessStats}
use nexus_llm_router.Stats.Outcomes.Weights.{ProviderWeightStats}
use nexus_llm_router.Stats.Outcomes.Resets.{ProviderErrorBudgetResetStats}
use nexus_llm_router.Stats.Samples.Latency.{LatencyStats, LatencySlopeStats}
use nexus_llm_router.Stats.Samples.RateLimits.{RateLimitStats}
use nexus_llm_router.Stats.Samples.CostAnomaly.{CostAnomalyStats}
use nexus_llm_router.Stats.Cooldown.{ProviderRetryAfterCooldown}
use nexus_llm_router.Stats.Regions.{RegionFailoverHysteresisStats}
use nexus_llm_router.Stats.Windows.Family.{FamilySpendWindow}
use nexus_llm_router.Stats.Windows.Hourly.{ProviderHourlySpendWindow}
use nexus_llm_router.Stats.Windows.TokenRpm.{TokenRpmWindow}
use nexus_llm_router.Stats.Windows.Cascade.{TenantBudgetCascadeStats}

-- A row of the spend ledger.
pub record SpendRecord : Type 0 where
  pub request_id : String
  pub tenant : String
  pub provider : String
  pub model : String
  pub cost : ℕ
  pub input_tokens : ℤ
  pub output_tokens : ℤ
  pub recorded_at : ℕ

-- The parts of `NexusRouter` that a request reads and writes. The ledger and the audit log are the
-- lists of what was written to them, oldest first.
pub record NexusRouter : Type 0 where
  pub rate_limiter : TokenBucketRateLimiter
  pub circuit_breakers : CircuitBreakerRegistry
  pub budget_guardrail : BudgetGuardrail
  pub inflight_stats : InflightStats
  pub scoreboard : ProviderFallbackScoreboard
  pub success_stats : SuccessStats
  pub error_budget_resets : ProviderErrorBudgetResetStats
  pub weight_stats : ProviderWeightStats
  pub rate_limit_stats : RateLimitStats
  pub cooldown : ProviderRetryAfterCooldown
  pub region_stats : RegionFailoverHysteresisStats
  pub latency_stats : LatencyStats
  pub slope_stats : LatencySlopeStats
  pub tenant_cascade : TenantBudgetCascadeStats
  pub family_window : FamilySpendWindow
  pub hourly_window : ProviderHourlySpendWindow
  pub token_window : TokenRpmWindow
  pub cost_anomaly : CostAnomalyStats
  pub spend_ledger : List SpendRecord
  pub audit_log : List AuditRecord

-- A routing strategy: what `choose` does to the router and decides. It may raise.
pub record Strategy : Type 0 where
  pub strategy_name : StrategyName
  pub choose : RouterRequest → TaskSignals → Exec NexusRouter RoutingDecision

-- What `NexusRouter.__init__` is given or builds once. `scrub` is `PiiScrubber.scrub_messages`,
-- `analyze` is `RequestAnalyzer.analyze`, and `has_adapter` says whether the registry has an adapter.
pub record Setup : Type 0 where
  pub default_strategy : StrategyName
  pub strategies : StrategyName → Option Strategy
  pub model_catalog : Dict ModelCandidate
  pub analyze : RouterRequest → TaskSignals
  pub scrub : List ChatMessage → List ChatMessage
  pub has_adapter : String → Bool

-- The places of the code that read a clock while one attempt is made.
pub data Moment : Type 0 where
  admitted guarded begun failed_at tripped erred cooled : Moment
  reset_at answered scored logged charged family_at hourly_at tokens_at : Moment

-- What a provider answers: a response, or an exception (a time-out is one).
pub data Outcome : Type 0 where
  replied : ProviderResponse → Outcome
  raised : Failure → Outcome

-- What happens outside the engine during a request. All but `started` go by the number of the
-- attempt: the provider's answer to what it was sent, what other requests do to the router while
-- this one waits for it, the readings of the clocks, and whether the two writes to disk succeed.
pub record World : Type 0 where
  pub started : ℕ
  pub call : ℕ → String → List ChatMessage → ℕ → Outcome
  pub meanwhile : ℕ → NexusRouter → NexusRouter
  pub clock : ℕ → Moment → ℕ
  pub ledger_works : ℕ → Bool
  pub audit_works : ℕ → Bool

-- A request under way: the router, and the request's own state machine.
pub record Run : Type 0 where
  pub router : NexusRouter
  pub current_state : RequestState
