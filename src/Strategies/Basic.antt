-- ===== src/Strategies/Basic.antt =====
-- `RuleBasedStrategy`, `ClassifierStrategy` and `CostOptimalStrategy` of router/strategies.py.
use nexus_llm_router.Prelude.{
  String, Bool, not, ◌&&◌, ◌||◌, Option, none, some, Result, List, [], ◌∷◌, if◌then◌else◌, str_eq,
}
use nexus_llm_router.Prelude.Choice.{keep, by}
use nexus_llm_router.Prelude.Ratio.{Ratio, ratio, leb_ratio}
use nexus_llm_router.Prelude.Dict
use nexus_llm_router.Schemas.{
  code, medical, legal, RouterRequest, TaskSignals, ModelCandidate, RoutingDecision,
}
use nexus_llm_router.Catalog.{
  openai_frontier_model, openai_balanced_model, anthropic_safety_model, gemini_flash_model,
  moonshot_balanced_model,
}
use nexus_llm_router.Strategies.Base.{
  Catalog, values, by_quality, fallback_chain, decision, is_domain, is_realtime, supports,
  request_cost, min_by, and_then,
}

-- `requested_model and requested_model in self._model_catalog`
abbrev pub honored : Catalog → Option String → Option String
honored catalog none = none
honored catalog (some m) =
    if str_eq m "" then none else elim (Dict.get catalog m) [ none ↦ none | some c ↦ some m ]

-- what the rules fall back on
abbrev pub last_rule : Catalog → RouterRequest → Result RoutingDecision
last_rule catalog request = elim (honored catalog request.requested_model) [
  | some m ↦
      decision catalog (fallback_chain catalog) "rule-based" m
        "explicit compatible model request honored"
  | none ↦
      decision catalog (fallback_chain catalog) "rule-based" openai_balanced_model
        "general prompt routed to balanced low-cost model"
]

-- `RuleBasedStrategy.choose`
unfoldable pub rule_based : Catalog → RouterRequest → TaskSignals → Result RoutingDecision
unfolding decision fallback_chain
rule_based catalog request signals =
    if is_domain signals.domain_tag medical
    then decision catalog (fallback_chain catalog) "rule-based" anthropic_safety_model
        "medical domain requires highest safety prior"
    else if is_domain signals.domain_tag legal
    then decision catalog (fallback_chain catalog) "rule-based" anthropic_safety_model
        "legal domain favors Claude policy reasoning"
    else if is_domain signals.domain_tag code && leb_ratio (ratio 55 100) signals.complexity_score
    then decision catalog (fallback_chain catalog) "rule-based" openai_frontier_model
        "complex code prompt favors GPT-6 Astra quality"
    else if leb_ratio signals.complexity_score (ratio 35 100)
        && is_realtime signals.latency_requirement
    then decision catalog (fallback_chain catalog) "rule-based" gemini_flash_model
        "simple realtime prompt favors low latency"
    else last_rule catalog request

-- `ClassifierStrategy.choose`
unfoldable pub classifier : Catalog → TaskSignals → Result RoutingDecision
unfolding decision fallback_chain
classifier catalog signals =
    if leb_ratio (ratio 80 100) signals.complexity_score
    then decision catalog (fallback_chain catalog) "classifier" anthropic_safety_model
        "classifier marked task high complexity"
    else if is_domain signals.domain_tag code
    then decision catalog (fallback_chain catalog) "classifier" openai_frontier_model
        "classifier detected code domain"
    else if leb_ratio signals.complexity_score (ratio 40 100)
    then decision catalog (fallback_chain catalog) "classifier" moonshot_balanced_model
        "classifier marked task simple and cost-sensitive"
    else decision catalog (fallback_chain catalog) "classifier" openai_balanced_model
        "classifier selected balanced middle tier"

-- The candidates that meet the floor, the domain and the latency.
unfoldable pub feasible : Ratio → TaskSignals → ModelCandidate → Bool
unfolding supports
feasible quality_floor signals c =
    leb_ratio quality_floor c.quality_score
    && supports signals.domain_tag c
    && (c.supports_realtime || not (is_realtime signals.latency_requirement))

-- The candidate that `CostOptimalStrategy.choose` selects from the feasible ones.
abbrev pub cheapest_or_best :
    RouterRequest → TaskSignals → List ModelCandidate → List ModelCandidate → Result ModelCandidate
cheapest_or_best request signals [] all = min_by by_quality all
cheapest_or_best request signals (c ∷ cs) all = min_by (by (request_cost request signals)) (c ∷ cs)

unfoldable pub cost_optimal_candidate :
    Catalog → Ratio → RouterRequest → TaskSignals → Result ModelCandidate
unfolding values feasible min_by
cost_optimal_candidate catalog quality_floor request signals =
    cheapest_or_best request signals (keep (feasible quality_floor signals) (values catalog))
      (values catalog)

abbrev cost_rationale : (ModelCandidate → String) → List ModelCandidate → ModelCandidate → String
cost_rationale explain [] c = "quality floor forced highest-quality fallback"
cost_rationale explain (f ∷ fs) c = explain c

-- `CostOptimalStrategy.choose`
unfoldable pub cost_optimal :
    Catalog
    → Ratio
    → (ModelCandidate → String)
    → RouterRequest
    → TaskSignals
    → Result RoutingDecision
unfolding cost_optimal_candidate decision fallback_chain
cost_optimal catalog quality_floor explain request signals =
    and_then (cost_optimal_candidate catalog quality_floor request signals) (λ c.
      decision catalog (fallback_chain catalog) "cost-optimal" c.model
        (cost_rationale explain (keep (feasible quality_floor signals) (values catalog)) c))
