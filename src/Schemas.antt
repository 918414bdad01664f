-- ===== src/Schemas.antt =====
-- router/schemas.py: the data of a request. Prices are whole units for 1000 tokens, so that a cost
-- is a whole number of thousandths of a unit; scores are exact fractions. Costs, prices and limits are
-- natural numbers, and the token counts of an answer are integers.
pub mod Costs
use nexus_llm_router.Prelude.{
  ℕ, ◌+◌, ◌*◌, min, String, Bool, Option, none, some, List, ltb, if◌then◌else◌, ◌&&◌,
}
use nexus_llm_router.Prelude.Int.{ℤ, pos, leb_ℤ}
use nexus_llm_router.Prelude.Ratio.{Ratio}
use nexus_llm_router.Lifecycle
use nexus_llm_router.Prelude.Dict.{Dict}

pub data DomainTag : Type 0 where
  code medical legal general : DomainTag

pub data LatencyRequirement : Type 0 where
  realtime batch : LatencyRequirement

pub data FinishReason : Type 0 where
  stop length_cap : FinishReason

-- A strategy name is the text of its `RoutingStrategyName`.
abbrev pub StrategyName : Type 0
StrategyName = String

pub record ChatMessage : Type 0 where
  pub role : String
  pub content : String

pub record RouterRequest : Type 0 where
  pub request_id : String
  pub messages : List ChatMessage
  pub api_key_id : String
  pub user_id : String
  pub session_id : String
  pub requested_model : Option String
  pub strategy : Option StrategyName
  pub token_budget : ℕ
  pub region : Option String
  pub max_tokens : ℕ
  pub stream : Bool
  pub metadata : Dict String

pub record TaskSignals : Type 0 where
  pub complexity_score : Ratio
  pub domain_tag : DomainTag
  pub latency_requirement : LatencyRequirement
  pub token_budget : ℕ
  pub prompt_tokens_estimate : ℕ

pub record LongPromptPricing : Type 0 where
  pub threshold_tokens : ℕ
  pub input_cost_per_1k : ℕ
  pub output_cost_per_1k : ℕ

unfoldable pub rates_for : LongPromptPricing → ℕ → ℕ × ℕ → ℕ × ℕ
rates_for p input_tokens base_rates =
    if ltb p.threshold_tokens input_tokens
    then (p.input_cost_per_1k, p.output_cost_per_1k)
    else base_rates

pub record ModelCandidate : Type 0 where
  pub model : String
  pub provider : String
  pub quality_score : Ratio
  pub input_cost_per_1k : ℕ
  pub output_cost_per_1k : ℕ
  pub supports_domains : List DomainTag
  pub supports_realtime : Bool
  pub context_window : ℕ
  pub max_input_tokens : Option ℕ
  pub long_prompt_pricing : Option LongPromptPricing
  pub supported_regions : List String

unfoldable pub input_token_limit : ModelCandidate → ℕ
input_token_limit c = elim c.max_input_tokens [
  | none ↦ c.context_window
  | some limit ↦ min c.context_window limit
]

-- The rates that a prompt of a length is billed at.
unfoldable pub billed_rates : ModelCandidate → ℕ → ℕ × ℕ
unfolding rates_for
billed_rates c input_tokens =
    let base_rates : ℕ × ℕ = (c.input_cost_per_1k, c.output_cost_per_1k) in
    elim c.long_prompt_pricing [
      | none ↦ base_rates
      | some pricing ↦ rates_for pricing input_tokens base_rates
    ]

unfoldable pub estimate_cost : ModelCandidate → ℕ → ℕ → ℕ
unfolding billed_rates
estimate_cost c input_tokens output_tokens =
    let (input_rate, output_rate) = billed_rates c input_tokens in
    input_tokens * input_rate + output_tokens * output_rate

pub record RoutingDecision : Type 0 where
  pub chosen_model : String
  pub provider : String
  pub routing_strategy : StrategyName
  pub rationale : String
  pub fallback_chain : List String

pub record ProviderResponse : Type 0 where
  pub content : String
  pub model : String
  pub input_tokens : ℤ
  pub output_tokens : ℤ
  pub cost : ℕ
  pub finish_reason : FinishReason

-- `RouterResponse` bounds the token counts below by 0, which `ProviderResponse` does not: whether the
-- counts of an answer pass. A `RouterResponse` is made of an answer that passes.
unfoldable pub valid_counts : ProviderResponse → Bool
valid_counts response = leb_ℤ (pos 0) response.input_tokens && leb_ℤ (pos 0) response.output_tokens

pub record RouterResponse : Type 0 where
  pub content : String
  pub model_used : String
  pub routing_strategy : StrategyName
  pub latency : ℕ
  pub input_tokens : ℤ
  pub output_tokens : ℤ
  pub cost : ℕ
  pub rationale : String
  pub request_id : String
  pub finish_reason : FinishReason

pub record AuditRecord : Type 0 where
  pub request_id : String
  pub chosen_model : String
  pub provider : String
  pub routing_strategy : StrategyName
  pub rationale : String
  pub latency : ℕ
  pub token_cost : ℕ
  pub input_tokens : ℤ
  pub output_tokens : ℤ
  pub state : Lifecycle.RequestState
