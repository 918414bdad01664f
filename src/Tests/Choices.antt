-- ===== src/Tests/Choices.antt =====
-- Choices of the strategies from the default catalog, and a whole request routed by one of them.
use nexus_llm_router.Prelude.{
  ℕ, zero, suc, ◌≡◌, ◌⊎◌, refl, arith, String, Bool, true, false, some, none, err,
  rate_limit_exceeded, List, [], ◌∷◌, str_eq,
}
use nexus_llm_router.Prelude.Ratio.{ratio}
use nexus_llm_router.Prelude.Choice.{All, by}
use nexus_llm_router.Prelude.Dict
use nexus_llm_router.Schemas.{ModelCandidate, ProviderResponse, valid_counts}
use nexus_llm_router.Catalog.{
  openai_frontier_model, openai_balanced_model, anthropic_safety_model, anthropic_fast_model,
  gemini_pro_model, gemini_flash_model, moonshot_balanced_model, default_model_catalog, gpt6_astra,
  gpt6_luna, claude_opus, claude_haiku, gemini_argon, gemini_flash, kimi_pro,
}
use nexus_llm_router.Stats.Inflight.{InflightStats}
use nexus_llm_router.Stats.Samples.Latency.{LatencyStats}
use nexus_llm_router.Engine.State.{Setup}
use nexus_llm_router.Engine.Settled.{IsWorking}
use nexus_llm_router.Engine.Ended.{refused}
use nexus_llm_router.Engine.Stream.{StreamWorld, Streaming, text, reported, complete_stream}
use nexus_llm_router.Engine.Stream.Ended.{IsReported}
use nexus_llm_router.Engine.Stream.Outcomes.{start, Settled, complete_stream-Settled}
use nexus_llm_router.Engine.Stream.Splice.{Hears, complete_stream-Hears}
use nexus_llm_router.Strategies.Base.{values, by_quality, request_cost}
use nexus_llm_router.Strategies.Basic.{feasible, cost_optimal_candidate}
use nexus_llm_router.Strategies.Load.{
  under_cap, by_worth, by_load, capped_candidate, pareto_candidate,
}
use nexus_llm_router.Strategies.Health.{is_healthy, by_value, reliable_candidate}
use nexus_llm_router.Strategies.Decided.{Holds, Gives, Filled, Filled-imp, Decides}
use nexus_llm_router.Strategies.Optimal.{
  Scored, IsBest, cost_optimal_candidate-IsBest, capped_candidate-IsBest, reliable_candidate-IsBest,
}
use nexus_llm_router.Strategies.Pareto.{IsBetter, pareto_candidate-IsOptimal}
use nexus_llm_router.Strategies.Default.{
  built_rule_based, chosen_by, chosen_by-Decides, strategy_of, IsBuilt, IsBuilt-IsDecided,
  default_model_catalog-IsScored,
}
use nexus_llm_router.Tests.Requests.{router, request, signals, world, named_if}

abbrev pool : List ModelCandidate
pool = gpt6_luna ∷ claude_haiku ∷ gemini_flash ∷ []

pool-Filled : Filled (λ c. Unit {0} × Scored c) pool
unfolding gpt6_luna claude_haiku gemini_flash
pool-Filled = (_, _, refl, ((tt, omega arith), ((tt, omega arith), ((tt, omega arith), tt))))

cost_optimal_candidate-IsBest_example :
    Gives
      (λ c.
        Holds default_model_catalog c
        × IsBest
            (feasible (ratio 8 10) signals)
            (by (request_cost request signals))
            by_quality
            (values default_model_catalog)
            c)
      (cost_optimal_candidate default_model_catalog (ratio 8 10) request signals)
cost_optimal_candidate-IsBest_example =
    cost_optimal_candidate-IsBest default_model_catalog (ratio 8 10) request signals
      default_model_catalog-IsScored

-- one request under way at one provider
abbrev loads : InflightStats
loads = ("google", 1) ∷ []

capped_candidate-IsBest_example :
    Gives
      (λ c.
        Unit {0}
        × IsBest
            (under_cap request signals loads 1)
            (by_worth request signals)
            (by_load request signals loads)
            pool
            c)
      (capped_candidate request signals loads 1 pool)
capped_candidate-IsBest_example =
    capped_candidate-IsBest (λ c. Unit {0}) request signals loads 1 pool pool-Filled

abbrev health : String → Bool
health provider = str_eq provider "google"

reliable_candidate-IsBest_example :
    Gives
      (λ c.
        Unit {0}
        × IsBest (is_healthy health) (by_value request signals) (by_value request signals) pool c)
      (reliable_candidate health request signals pool)
reliable_candidate-IsBest_example =
    reliable_candidate-IsBest (λ c. Unit {0}) health request signals pool pool-Filled

abbrev latencies : LatencyStats
latencies = []

pareto_candidate-IsOptimal_example :
    Gives
      (λ c.
        Holds default_model_catalog c
        × All
            (λ x. ¬ IsBetter request signals latencies default_model_catalog x c)
            (values default_model_catalog))
      (pareto_candidate request signals latencies (values default_model_catalog))
pareto_candidate-IsOptimal_example =
    pareto_candidate-IsOptimal request signals latencies default_model_catalog
      (values default_model_catalog) (Filled-imp _ _ _ (λ c h. h.0) default_model_catalog-IsScored)

chosen_by-Decides_example :
    Decides default_model_catalog
      (chosen_by default_model_catalog built_rule_based request signals router)
chosen_by-Decides_example = chosen_by-Decides built_rule_based request signals router

abbrev default_setup : Setup
default_setup = record {
  default_strategy = "rule-based";
  strategies = λ name. some (strategy_of default_model_catalog built_rule_based);
  model_catalog = default_model_catalog;
  analyze = λ request. signals;
  scrub = λ messages. messages;
  has_adapter = λ provider. true;
}

default_setup-IsBuilt : IsBuilt default_setup
default_setup-IsBuilt = record { catalog = refl; built = λ request. (built_rule_based, refl) }

default_model_catalog-named :
    (m : String) (c : ModelCandidate)
    → Dict.get default_model_catalog m ≡ some c
    → str_eq c.provider "" ≡ false
unfolding Dict.get default_model_catalog gpt6_astra gpt6_luna claude_opus claude_haiku gemini_argon
    gemini_flash kimi_pro
default_model_catalog-named m c = named_if (str_eq openai_frontier_model m) gpt6_astra c _ refl (
    named_if (str_eq openai_balanced_model m) gpt6_luna c _ refl (
      named_if (str_eq anthropic_safety_model m) claude_opus c _ refl (
        named_if (str_eq anthropic_fast_model m) claude_haiku c _ refl (
          named_if (str_eq gemini_pro_model m) gemini_argon c _ refl (
            named_if (str_eq gemini_flash_model m) gemini_flash c _ refl
              (named_if (str_eq moonshot_balanced_model m) kimi_pro c none refl (λ h. cc)))))))

default_world-IsWorking : IsWorking default_setup world
default_world-IsWorking = record {
  ledger = λ i. refl;
  audit = λ i. refl;
  named = default_model_catalog-named;
}

-- The first stream breaks off after an empty piece, the second sends two pieces.
abbrev streams : ℕ → Streaming
streams zero = record {
  chunks = text "" ∷ [];
  failure = some (record { rate_limited = true; retry_after = none });
}
streams (suc n) = record { chunks = text "hel" ∷ text "lo" ∷ []; failure = none }

abbrev stream_world : StreamWorld
stream_world = record {
  world = world;
  stream = λ i model messages max_tokens. streams i;
  adapter_cost = λ provider model input_tokens output_tokens. 16;
}

streams-valid_counts :
    (i : ℕ) (p : ProviderResponse)
    → reported none (streams i).chunks ≡ some p
    → valid_counts p ≡ true
unfolding reported valid_counts
streams-valid_counts zero p h = cc
streams-valid_counts (suc n) p h = cc

stream_world-IsReported : IsReported stream_world
stream_world-IsReported = record { counts = λ i m messages most. streams-valid_counts i }

complete_stream-Hears_example :
    let (a, s) = complete_stream default_setup stream_world request router in Hears a s.emitted
complete_stream-Hears_example = complete_stream-Hears default_setup stream_world request router

complete_stream-Settled_example :
    let (a, s) = complete_stream default_setup stream_world request router in
    ((a ≡ err rate_limit_exceeded) × (s ≡ start (refused world request router))) ⊎ Settled a s
complete_stream-Settled_example =
    complete_stream-Settled default_setup stream_world default_world-IsWorking
      stream_world-IsReported (IsBuilt-IsDecided default_setup default_setup-IsBuilt) request router
