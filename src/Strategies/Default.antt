-- ===== src/Strategies/Default.antt =====
-- Requests to a router whose strategy is a modelled one of router/strategies.py, built with the default
-- catalog of router/config.py.
use nexus_llm_router.Prelude.{
  ℕ, ◌≡◌, ◌⊎◌, refl, sym, subst, String, some, Result, err, rate_limit_exceeded, arith,
}
use nexus_llm_router.Prelude.Ratio.{Ratio}
use nexus_llm_router.Prelude.Dict
use nexus_llm_router.Schemas.{
  RouterRequest, TaskSignals, ModelCandidate, RoutingDecision, StrategyName,
}
use nexus_llm_router.Catalog.{
  default_model_catalog, gpt6_astra, gpt6_luna, claude_opus, claude_haiku, gemini_argon,
  gemini_flash, kimi_pro,
}
use nexus_llm_router.Engine.State.{NexusRouter, Setup, World, Strategy}
use nexus_llm_router.Engine.Complete.{effective_strategy, complete}
use nexus_llm_router.Engine.Settled.{IsWorking, IsCounted}
use nexus_llm_router.Engine.Ended.{IsDecided, refused}
use nexus_llm_router.Engine.Outcomes.{Answers, complete-Answers}
use nexus_llm_router.Strategies.Base.{Catalog, values}
use nexus_llm_router.Strategies.Basic.{rule_based, classifier, cost_optimal}
use nexus_llm_router.Strategies.Load.{least_busy, concurrency_cap, cost_latency_pareto}
use nexus_llm_router.Strategies.Health.{Health, reliability_aware, soft_rate_limit}
use nexus_llm_router.Strategies.Decided.{Holds, IsKeyed, Decides, Filled, All-Filled, Filled-imp}
use nexus_llm_router.Strategies.Optimal.{IsScored}
use nexus_llm_router.Strategies.Chosen.{
  IsStocked, rule_based-Decides, classifier-Decides, cost_optimal-Decides, least_busy-Decides,
  concurrency_cap-Decides, reliability_aware-Decides, soft_rate_limit-Decides,
}
use nexus_llm_router.Strategies.Pareto.{cost_latency_pareto-Decides}

-- The modelled strategies with what each is built with. A counter is read from the router that the
-- strategy shares it with.
pub data Built : Type 0 where
  built_rule_based built_classifier : Built
  built_cost_optimal : Ratio → (ModelCandidate → String) → Built
  built_least_busy built_cost_latency_pareto : (ModelCandidate → String) → Built
  built_concurrency_cap : ℕ → (ModelCandidate → String) → Built
  built_reliability_aware built_soft_rate_limit :
      (NexusRouter → Health) → (ModelCandidate → String) → Built

-- The name and `choose` of a strategy.
abbrev pub chosen_by :
    Catalog → Built → RouterRequest → TaskSignals → NexusRouter → Result RoutingDecision
chosen_by catalog built_rule_based request signals r = rule_based catalog request signals
chosen_by catalog built_classifier request signals r = classifier catalog signals
chosen_by catalog (built_cost_optimal quality_floor explain) request signals r =
    cost_optimal catalog quality_floor explain request signals
chosen_by catalog (built_least_busy explain) request signals r =
    least_busy request signals catalog r.inflight_stats explain
chosen_by catalog (built_cost_latency_pareto explain) request signals r =
    cost_latency_pareto request signals catalog r.latency_stats explain
chosen_by catalog (built_concurrency_cap most explain) request signals r =
    concurrency_cap request signals catalog r.inflight_stats most explain
chosen_by catalog (built_reliability_aware health explain) request signals r =
    reliability_aware catalog (health r) explain request signals
chosen_by catalog (built_soft_rate_limit health explain) request signals r =
    soft_rate_limit catalog (health r) r.rate_limit_stats explain request signals

abbrev pub built_name : Built → StrategyName
built_name built_rule_based = "rule-based"
built_name built_classifier = "classifier"
built_name (built_cost_optimal quality_floor explain) = "cost-optimal"
built_name (built_least_busy explain) = "least-busy"
built_name (built_cost_latency_pareto explain) = "cost-latency-pareto"
built_name (built_concurrency_cap most explain) = "concurrency-cap"
built_name (built_reliability_aware health explain) = "reliability-aware"
built_name (built_soft_rate_limit health explain) = "soft-rate-limit"

abbrev pub strategy_of : Catalog → Built → Strategy
strategy_of catalog built = record {
  strategy_name = built_name built;
  choose = λ request signals r. (chosen_by catalog built request signals r, r);
}

-- The default catalog maps each name to the candidate of that name, has the models that the rules name,
-- scores every candidate by a fraction, and prices long prompts no lower than short ones.
pub default_model_catalog-IsScored : IsScored default_model_catalog
unfolding default_model_catalog Dict.get values gpt6_astra gpt6_luna claude_opus claude_haiku
    gemini_argon gemini_flash kimi_pro
default_model_catalog-IsScored = (
  _,
  _,
  refl,
  (
    (refl, omega arith),
    (
      (refl, omega arith),
      (
        (refl, omega arith),
        (
          (refl, omega arith),
          ((refl, omega arith), ((refl, omega arith), ((refl, omega arith), tt))),
        ),
      ),
    ),
  ),
)

default_model_catalog-IsStocked : IsStocked default_model_catalog
unfolding default_model_catalog Dict.get gpt6_astra gpt6_luna claude_opus claude_haiku gemini_argon
    gemini_flash kimi_pro
default_model_catalog-IsStocked =
    ((_, refl), ((_, refl), ((_, refl), ((_, refl), ((_, refl), tt)))))

-- Every modelled strategy, built with the default catalog, returns a decision for models of the catalog,
-- for every request and every state of the counters.
pub chosen_by-Decides :
    (built : Built) (request : RouterRequest) (signals : TaskSignals) (r : NexusRouter)
    → Decides default_model_catalog (chosen_by default_model_catalog built request signals r)
chosen_by-Decides built request signals r = decided built
  where
    filled : Filled (Holds default_model_catalog) (values default_model_catalog)
    filled = Filled-imp _ _ _ (λ c h. h.0) default_model_catalog-IsScored

    keyed : IsKeyed default_model_catalog
    keyed = All-Filled _ _ filled

    decided :
        (b : Built)
        → Decides default_model_catalog (chosen_by default_model_catalog b request signals r)
    decided built_rule_based =
        rule_based-Decides default_model_catalog keyed default_model_catalog-IsStocked request
          signals
    decided built_classifier =
        classifier-Decides default_model_catalog keyed default_model_catalog-IsStocked signals
    decided (built_cost_optimal quality_floor explain) =
        cost_optimal-Decides default_model_catalog keyed filled quality_floor explain request
          signals
    decided (built_least_busy explain) =
        least_busy-Decides default_model_catalog request signals filled r.inflight_stats explain
    decided (built_cost_latency_pareto explain) =
        cost_latency_pareto-Decides request signals r.latency_stats default_model_catalog explain
          filled
    decided (built_concurrency_cap most explain) =
        concurrency_cap-Decides default_model_catalog request signals filled r.inflight_stats most
          explain
    decided (built_reliability_aware health explain) =
        reliability_aware-Decides default_model_catalog request signals filled (health r) explain
    decided (built_soft_rate_limit health explain) =
        soft_rate_limit-Decides default_model_catalog request signals filled (health r)
          r.rate_limit_stats explain

-- The router has the default catalog, and the strategy of every request is a modelled one.
pub record IsBuilt (d : Setup) : Type 0 where
  pub catalog : d.model_catalog ≡ default_model_catalog
  pub built :
      (request : RouterRequest)
      → (b : Built) × (d.strategies (effective_strategy d request)
          ≡ some (strategy_of default_model_catalog b))

pub IsBuilt-IsDecided : (d : Setup) → IsBuilt d → IsDecided d
IsBuilt-IsDecided d b = record {
  found = λ request. (strategy_of default_model_catalog (b.built request).0, (b.built request).1);
  decides = λ request r.
      subst
        (λ catalog.
          Decides catalog
            (chosen_by default_model_catalog (b.built request).0 request (d.analyze request) r))
        (sym b.catalog) (chosen_by-Decides (b.built request).0 request (d.analyze request) r);
}

-- With the default catalog and a modelled strategy, every request ends in one of three ways: the rate
-- limiter refuses it and only the limiter has changed, it is answered in the state `responded`, or
-- `RoutingFailedError` is raised in the state `failed`; no `KeyError`, `ValueError`, `IndexError` or
-- `StateTransitionError` escapes. The writes to disk succeed, no provider
-- reports a negative number of tokens, and providers have names.
complete_default-Answers :
    (d : Setup) (w : World) (request : RouterRequest) (r : NexusRouter)
    → IsWorking d w
    → IsCounted w
    → IsBuilt d
    → let (a, s) = complete d w request r in
      ((a ≡ err rate_limit_exceeded) × (s ≡ refused w request r)) ⊎ Answers a s.current_state
complete_default-Answers d w request r works reports b =
    complete-Answers d w request r works reports (IsBuilt-IsDecided d b)
