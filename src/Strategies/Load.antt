-- ===== src/Strategies/Load.antt =====
-- `LeastBusyStrategy`, `ConcurrencyCapStrategy` and `CostLatencyParetoStrategy` of router/strategies.py.
use nexus_llm_router.Prelude.{
  ℕ, String, Bool, false, not, ◌&&◌, ◌||◌, Result, List, [], ◌∷◌, ltb, leb, str_eq,
}
use nexus_llm_router.Prelude.Choice.{keep, take, sort_by, then_by, by, by_flag, by_text, down}
use nexus_llm_router.Prelude.Dict
use nexus_llm_router.Prelude.Dict.{Dict}
use nexus_llm_router.Schemas.{RouterRequest, TaskSignals, ModelCandidate, RoutingDecision}
use nexus_llm_router.Stats.Inflight.{InflightStats, load_score}
use nexus_llm_router.Stats.Samples.Latency.{LatencyStats, p95}
use nexus_llm_router.Strategies.Base.{
  Catalog, by_quality, fallback_chain, decision, decision_of, eligible, names, without,
  request_cost, min_by, and_then, head_decision,
}

module _ (request : RouterRequest) (signals : TaskSignals) where
  -- quality, cost and name, the end of the keys
  abbrev pub by_merit : ModelCandidate → ModelCandidate → Bool
  by_merit =
      then_by by_quality (then_by (by (request_cost request signals)) (by_text (λ c. c.model)))

  -- the key of `_load_ordered_candidates`
  unfoldable pub by_load : InflightStats → ModelCandidate → ModelCandidate → Bool
  by_load stats = then_by (by (λ c. load_score stats c.provider)) by_merit

  -- `LeastBusyStrategy.choose`
  unfoldable pub least_busy :
      Catalog → InflightStats → (ModelCandidate → String) → Result RoutingDecision
  unfolding eligible by_load head_decision
  least_busy catalog stats explain =
      head_decision "least-busy" explain (sort_by (by_load stats) (eligible catalog signals))

  -- whether a provider is below the cap
  unfoldable pub under_cap : InflightStats → ℕ → ModelCandidate → Bool
  under_cap stats cap c = ltb (load_score stats c.provider) cap

  -- `max` by quality, the lower cost and the later name
  unfoldable pub by_worth : ModelCandidate → ModelCandidate → Bool
  by_worth =
      then_by by_quality
        (then_by (by (request_cost request signals)) (down (by_text (λ c. c.model))))

  abbrev pub capped_or_least :
      InflightStats → List ModelCandidate → List ModelCandidate → Result ModelCandidate
  capped_or_least stats [] pool = min_by (by_load stats) pool
  capped_or_least stats (c ∷ cs) pool = min_by by_worth (c ∷ cs)

  unfoldable pub capped_candidate : InflightStats → ℕ → List ModelCandidate → Result ModelCandidate
  unfolding under_cap by_load by_worth min_by
  capped_candidate stats cap pool = capped_or_least stats (keep (under_cap stats cap) pool) pool

  -- the key of `_fallback_candidates`
  unfoldable pub by_room : InflightStats → ℕ → ModelCandidate → ModelCandidate → Bool
  by_room stats cap = then_by (by_flag (λ c. leb cap (load_score stats c.provider))) by_merit

  -- `ConcurrencyCapStrategy.choose`
  unfoldable pub concurrency_cap :
      Catalog → InflightStats → ℕ → (ModelCandidate → String) → Result RoutingDecision
  unfolding eligible capped_candidate by_room without
  concurrency_cap catalog stats cap explain =
      let pool = eligible catalog signals in
      and_then (capped_candidate stats cap pool) (λ c. Result.ok (
        decision_of "concurrency-cap" c (explain c)
          (names (take 3 (sort_by (by_room stats cap) (without c.model pool))))))

-- `{candidate.model: … for candidate in …}`: a later candidate of the same name takes the earlier one's place.
unfoldable pub measured : (ModelCandidate → ℕ) → Dict ℕ → List ModelCandidate → Dict ℕ
measured measure d [] = d
measured measure d (c ∷ cs) = measured measure (Dict.put d c.model (measure c)) cs

-- `costs[candidate.model]`; every candidate that is looked up has its key.
abbrev pub looked_up : Dict ℕ → ModelCandidate → ℕ
looked_up d c = Dict.get_or d c.model 0

module _ (costs latencies : Dict ℕ) where
  -- Whether the first candidate dominates the second: no dearer, no slower, and better in one.
  unfoldable pub dominates : ModelCandidate → ModelCandidate → Bool
  dominates other c =
      let cost = looked_up costs in
      let latency = looked_up latencies in
      not (str_eq other.model c.model)
      && leb (cost other) (cost c)
      && leb (latency other) (latency c)
      && (ltb (cost other) (cost c) || ltb (latency other) (latency c))

  -- `any(… for other in eligible_candidates)`
  unfoldable pub any_dominates : List ModelCandidate → ModelCandidate → Bool
  unfolding dominates
  any_dominates [] c = false
  any_dominates (o ∷ os) c = dominates o c || any_dominates os c

  unfoldable pub pareto_front : List ModelCandidate → List ModelCandidate
  unfolding any_dominates
  pareto_front pool = keep (λ c. not (any_dominates pool c)) pool

  unfoldable pub by_pareto : ModelCandidate → ModelCandidate → Bool
  by_pareto =
      then_by by_quality (
        then_by (by (looked_up costs))
          (then_by (by (looked_up latencies)) (by_text (λ c. c.model))))

module _ (request : RouterRequest) (signals : TaskSignals) where
  -- the two dicts
  unfoldable pub costs_of : List ModelCandidate → Dict ℕ
  unfolding measured
  costs_of pool = measured (request_cost request signals) [] pool

  unfoldable pub latencies_of : LatencyStats → List ModelCandidate → Dict ℕ
  unfolding measured p95
  latencies_of stats pool = measured (λ c. p95 stats c.provider) [] pool

  -- the candidate that `CostLatencyParetoStrategy.choose` selects
  unfoldable pub pareto_candidate : LatencyStats → List ModelCandidate → Result ModelCandidate
  unfolding pareto_front by_pareto min_by costs_of latencies_of
  pareto_candidate stats pool =
      let costs = costs_of pool in
      let latencies = latencies_of stats pool in
      min_by (by_pareto costs latencies) (pareto_front costs latencies pool)

  -- `CostLatencyParetoStrategy.choose`
  unfoldable pub cost_latency_pareto :
      Catalog → LatencyStats → (ModelCandidate → String) → Result RoutingDecision
  unfolding eligible pareto_candidate decision fallback_chain
  cost_latency_pareto catalog stats explain =
      and_then (pareto_candidate stats (eligible catalog signals))
        (λ c. decision catalog (fallback_chain catalog) "cost-latency-pareto" c.model (explain c))
