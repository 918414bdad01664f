-- ===== src/Strategies/Base.antt =====
-- `RoutingStrategy` of router/strategies.py, and what its subclasses share.
use nexus_llm_router.Prelude.{
  ℕ, String, Bool, true, false, not, none, some, Result, ok, err, key_error, value_error,
  index_error, List, [], ◌∷◌, map, if◌then◌else◌, str_eq,
}
use nexus_llm_router.Prelude.Choice.{keep, take, first_by, sort_by, by_ratio, down}
use nexus_llm_router.Prelude.Dict
use nexus_llm_router.Prelude.Dict.{Dict}
use nexus_llm_router.Schemas.{
  DomainTag, code, medical, legal, general, LatencyRequirement, realtime, batch, RouterRequest,
  TaskSignals, ModelCandidate, RoutingDecision, StrategyName, estimate_cost,
}

abbrev pub Catalog : Type 0
Catalog = Dict ModelCandidate

-- `self._model_catalog.values()`
unfoldable pub values : Catalog → List ModelCandidate
values catalog = map (λ e. e.1) catalog

abbrev pub names : List ModelCandidate → List String
names = map (λ c. c.model)

-- the key of a sort by quality, highest first
abbrev pub by_quality : ModelCandidate → ModelCandidate → Bool
by_quality = down (by_ratio (λ c. c.quality_score))

-- the models of a list but for the chosen one
unfoldable pub without : String → List ModelCandidate → List ModelCandidate
without chosen = keep (λ c. not (str_eq c.model chosen))

-- `_fallback_chain`
unfoldable pub fallback_chain : Catalog → String → List String
unfolding values
fallback_chain catalog chosen_model =
    take 3 (names (without chosen_model (sort_by by_quality (values catalog))))

-- The decision for a candidate with a fallback chain.
abbrev pub decision_of : StrategyName → ModelCandidate → String → List String → RoutingDecision
decision_of strategy_name candidate rationale chain = record {
  chosen_model = candidate.model;
  provider = candidate.provider;
  routing_strategy = strategy_name;
  rationale = rationale;
  fallback_chain = chain;
}

-- `_decision`, with the chain that the subclass builds
unfoldable pub decision :
    Catalog → (String → List String) → StrategyName → String → String → Result RoutingDecision
decision catalog chain_of strategy_name model rationale = elim (Dict.get catalog model) [
  | none ↦ err key_error
  | some candidate ↦ ok (record {
    chosen_model = model;
    provider = candidate.provider;
    routing_strategy = strategy_name;
    rationale = rationale;
    fallback_chain = chain_of model;
  })
]

abbrev pub is_domain : DomainTag → DomainTag → Bool
is_domain code code = true
is_domain medical medical = true
is_domain legal legal = true
is_domain general general = true
is_domain _ _ = false

abbrev pub is_realtime : LatencyRequirement → Bool
is_realtime realtime = true
is_realtime batch = false

-- `tag in candidate.supports_domains`
unfoldable pub mem_domain : DomainTag → List DomainTag → Bool
mem_domain tag [] = false
mem_domain tag (d ∷ ds) = let rest = mem_domain tag ds in if is_domain d tag then true else rest

unfoldable pub supports : DomainTag → ModelCandidate → Bool
unfolding mem_domain
supports tag c = mem_domain tag c.supports_domains

-- `xs or ys`
abbrev pub or_else : List ModelCandidate → List ModelCandidate → List ModelCandidate
or_else [] ys = ys
or_else (x ∷ xs) ys = x ∷ xs

-- `[c for c in values if tag in c.supports_domains] or list(values)`
unfoldable pub eligible : Catalog → TaskSignals → List ModelCandidate
unfolding values supports
eligible catalog signals =
    or_else (keep (supports signals.domain_tag) (values catalog)) (values catalog)

unfoldable pub request_cost : RouterRequest → TaskSignals → ModelCandidate → ℕ
request_cost request signals c = estimate_cost c signals.prompt_tokens_estimate request.max_tokens

-- `min(xs, key=…)`, which raises on an empty list
unfoldable pub min_by :
    (ModelCandidate → ModelCandidate → Bool) → List ModelCandidate → Result ModelCandidate
min_by before [] = err value_error
min_by before (c ∷ cs) = ok (first_by before c cs)

abbrev pub and_then : {A B : Type 0} → Result A → (A → Result B) → Result B
and_then (err e) f = err e
and_then (ok a) f = f a

-- the first of an ordered list; `ordered[0]` raises on an empty one
unfoldable pub head_decision :
    StrategyName → (ModelCandidate → String) → List ModelCandidate → Result RoutingDecision
head_decision strategy_name explain [] = err index_error
head_decision strategy_name explain (c ∷ cs) =
    ok (decision_of strategy_name c (explain c) (names (take 3 cs)))
