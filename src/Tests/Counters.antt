-- ===== src/Tests/Counters.antt =====
-- The counters of router/strategies.py and the costs of router/schemas.py at work.
use nexus_llm_router.Prelude.{◌≤◌, ◌≡◌, refl, true, false, some, none, List, [], ◌∷◌, arith}
use nexus_llm_router.Prelude.Ratio.{ratio}
use nexus_llm_router.Prelude.Dict
use nexus_llm_router.Schemas.{ModelCandidate, general, estimate_cost}
use nexus_llm_router.Schemas.Costs.{IsPriced, estimate_cost_mono}
use nexus_llm_router.Stats.Inflight.{InflightStats, load_score, around, load_score-around}
use nexus_llm_router.Stats.Outcomes.Success.{SuccessStats, IsCounted}
use nexus_llm_router.Stats.Outcomes.Weights
use nexus_llm_router.Stats.Outcomes.Weights.{ProviderWeightStats, IsNormal, observe-IsNormal}
use nexus_llm_router.Stats.Outcomes.Resets.{ProviderErrorBudgetResetStats, IsSane}
use nexus_llm_router.Stats.Samples.Latency.{LatencyStats, IsRolling}
use nexus_llm_router.Stats.Samples.RateLimits.{RateLimitStats, IsBounded}
use nexus_llm_router.Stats.Cooldown.{ProviderRetryAfterCooldown}
use nexus_llm_router.Stats.Windows.{read_total}
use nexus_llm_router.Stats.Windows.Totals.{
  Entry, record_all, recent, samples_for, read_total-record_all,
}
use nexus_llm_router.Stats.Windows.Cascade.{TenantBudgetCascadeStats}

abbrev inflight : InflightStats
inflight = ("openai", 2) ∷ ("anthropic", 1) ∷ []

load_score-around_example :
    load_score (around "acme" "anthropic" (λ s. s) inflight) "anthropic"
    ≡ load_score inflight "anthropic"
load_score-around_example =
    load_score-around "acme" "anthropic" (λ s. s) inflight (λ t q. refl) "anthropic"

abbrev outcomes : SuccessStats
outcomes = record { successes = ("openai", 1) ∷ []; attempts = ("openai", 2) ∷ [] }

outcomes-IsCounted : IsCounted outcomes
unfolding Dict.get_or
outcomes-IsCounted p = ground arith

abbrev weights : ProviderWeightStats
weights = record { decay_factor = ratio 1 2; recover = ratio 1 10; weights = [] }

weights-IsNormal : IsNormal weights
unfolding Weights.weight Dict.get_or
weights-IsNormal = record { decay = omega arith; at = λ p. omega arith }

abbrev resets : ProviderErrorBudgetResetStats
resets = record { reset_seconds = 60; windows = [] }

resets-IsSane : IsSane resets
unfolding Dict.get
resets-IsSane = record { at = λ p w h. cc }

abbrev latencies : LatencyStats
latencies = ("openai", 300 ∷ 120 ∷ 900 ∷ []) ∷ []

latencies-IsRolling : IsRolling 100 latencies
unfolding Dict.get_or
latencies-IsRolling p = ground arith

abbrev limits : RateLimitStats
limits = record { max_observations = 2; observations = ("openai", true ∷ false ∷ []) ∷ [] }

limits-IsBounded : IsBounded limits
unfolding Dict.get_or
limits-IsBounded p = ground arith

abbrev cooldown : ProviderRetryAfterCooldown
cooldown = record { default_seconds = 30; until = ("openai", 50) ∷ [] }

abbrev history : List Entry
history =
    record { key = "openai"; amount = 5; at = 10 }
    ∷ record { key = "anthropic"; amount = 9; at = 12 }
    ∷ record { key = "openai"; amount = 7; at = 70 }
    ∷ []

read_total-record_all_example :
    (read_total 60 "openai" 75 (record_all 60 history [])).0
    ≡ recent 60 75 (samples_for "openai" history)
read_total-record_all_example =
    read_total-record_all 60 "openai" 75 history (omega arith, (omega arith, (omega arith, tt)))
      (omega arith)

abbrev tenants : TenantBudgetCascadeStats
tenants = record { window_seconds = 60; observations = ("acme", (10, 5) ∷ []) ∷ [] }

abbrev candidate : ModelCandidate
candidate = record {
  model = "gpt-4o";
  provider = "openai";
  quality_score = ratio 9 10;
  input_cost_per_1k = 3;
  output_cost_per_1k = 10;
  supports_domains = general ∷ [];
  supports_realtime = true;
  context_window = 128000;
  max_input_tokens = none;
  long_prompt_pricing =
      some (record { threshold_tokens = 1000; input_cost_per_1k = 6; output_cost_per_1k = 15 });
  supported_regions = [];
}

candidate-IsPriced : IsPriced candidate
candidate-IsPriced = record { dearer = λ p h. ground arith }

estimate_cost_mono_example : estimate_cost candidate 900 100 ≤ estimate_cost candidate 1100 100
estimate_cost_mono_example =
    estimate_cost_mono candidate 900 1100 100 100 candidate-IsPriced (omega arith) (omega arith)
