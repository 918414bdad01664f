-- ===== src/Strategies/Chosen.antt =====
-- Each strategy of router/strategies.py decides, for a catalog that maps each name to the candidate of
-- that name.
use nexus_llm_router.Prelude.{
  ℕ, ◌≡◌, refl, String, Bool, true, false, not, ◌&&◌, Option, none, some, Result, ok, err, List, [],
  ◌∷◌, str_eq, if◌then◌else◌, Bool-cases, Option-cases, inl, inr,
}
use nexus_llm_router.Prelude.Choice.{Before, All, All-keep, All-take, All-sort_by}
use nexus_llm_router.Prelude.Dict
use nexus_llm_router.Prelude.Ratio.{Ratio, ratio, leb_ratio}
use nexus_llm_router.Schemas.{
  RouterRequest, TaskSignals, ModelCandidate, RoutingDecision, StrategyName, code, medical, legal,
}
use nexus_llm_router.Stats.Inflight.{InflightStats}
use nexus_llm_router.Stats.Samples.RateLimits.{RateLimitStats}
use nexus_llm_router.Engine.Order.Known.{Known}
use nexus_llm_router.Catalog.{
  openai_frontier_model, openai_balanced_model, anthropic_safety_model, gemini_flash_model,
  moonshot_balanced_model,
}
use nexus_llm_router.Strategies.Base.{
  Catalog, values, without, fallback_chain, decision, is_domain, is_realtime, and_then,
}
use nexus_llm_router.Strategies.Basic.{
  honored, last_rule, rule_based, classifier, cheapest_or_best, cost_optimal_candidate,
  cost_optimal,
}
use nexus_llm_router.Strategies.Load.{
  least_busy, capped_or_least, capped_candidate, concurrency_cap,
}
use nexus_llm_router.Strategies.Health.{
  Health, healthy_fallback_chain, reliable_candidate, in_two, reliability_aware, rate_limit_ordered,
  soft_rate_limit,
}
use nexus_llm_router.Strategies.Decided.{
  Holds, IsKeyed, Decides, Filled, All-Filled, Known-names, Known-take, fallback_chain-Known,
  decision-Decides, head_decision-Decides, sort_by-Filled, or_else-Filled, Gives, min_by-Gives,
  eligible-Filled, Filled-append,
}

-- The catalog has the models that the rules name.
abbrev pub IsStocked : Catalog → Type 0
IsStocked catalog = Known catalog (
    anthropic_safety_model ∷ openai_frontier_model ∷ gemini_flash_model ∷ moonshot_balanced_model
    ∷ openai_balanced_model ∷ [])

module _ (catalog : Catalog) (keyed : IsKeyed catalog) where
  named :
      (s : StrategyName) (m rationale : String)
      → (c : ModelCandidate) × (Dict.get catalog m ≡ some c)
      → Decides catalog (decision catalog (fallback_chain catalog) s m rationale)
  named s m rationale found =
      decision-Decides catalog (fallback_chain catalog) s m rationale found
        (fallback_chain-Known catalog m keyed)

  of_two :
      (test : Bool) (a b : Result RoutingDecision)
      → Decides catalog a
      → Decides catalog b
      → Decides catalog (if test then a else b)
  of_two true a b h k = h
  of_two false a b h k = k

  -- The model that is honored is in the catalog.
  abbrev Given : Option String → Type 0
  Given none = Unit {0}
  Given (some m) = (c : ModelCandidate) × (Dict.get catalog m ≡ some c)

  honored-Given : (requested : Option String) → Given (honored catalog requested)
  honored-Given none = tt
  honored-Given (some m) = elim (Bool-cases (str_eq m "")) [
    | inl empty ↦ rw empty tt
    | inr full ↦ elim (Option-cases (Dict.get catalog m)) [
      | inl missing ↦ rw (full, missing) tt
      | inr (c, found) ↦ rw (full, found) (c, found)
    ]
  ]

  honored_or-Decides :
      (o : Option String) (s : StrategyName) (m one other : String)
      → Given o
      → (c : ModelCandidate) × (Dict.get catalog m ≡ some c)
      → Decides catalog (elim o [
        | some n ↦ decision catalog (fallback_chain catalog) s n one
        | none ↦ decision catalog (fallback_chain catalog) s m other
      ])
  honored_or-Decides none s m one other g found = named s m other found
  honored_or-Decides (some n) s m one other g found = named s n one g

  last_rule-Decides :
      IsStocked catalog → (request : RouterRequest) → Decides catalog (last_rule catalog request)
  last_rule-Decides stocked request =
      honored_or-Decides _ _ _ _ _ (honored-Given request.requested_model) stocked.1.1.1.1.0

  -- `RuleBasedStrategy` decides.
  pub rule_based-Decides :
      IsStocked catalog
      → (request : RouterRequest) (signals : TaskSignals)
      → Decides catalog (rule_based catalog request signals)
  unfolding rule_based
  rule_based-Decides stocked request signals =
      of_two (is_domain signals.domain_tag medical) _ _ (named _ _ _ stocked.0) (
        of_two (is_domain signals.domain_tag legal) _ _ (named _ _ _ stocked.0) (
          of_two
            (is_domain signals.domain_tag code && leb_ratio (ratio 55 100) signals.complexity_score)
            _ _ (named _ _ _ stocked.1.0)
            (of_two
              (leb_ratio signals.complexity_score (ratio 35 100)
                && is_realtime signals.latency_requirement)
              _ _ (named _ _ _ stocked.1.1.0) (last_rule-Decides stocked request))))

  -- `ClassifierStrategy` decides.
  pub classifier-Decides :
      IsStocked catalog → (signals : TaskSignals) → Decides catalog (classifier catalog signals)
  unfolding classifier
  classifier-Decides stocked signals =
      of_two (leb_ratio (ratio 80 100) signals.complexity_score) _ _ (named _ _ _ stocked.0) (
        of_two (is_domain signals.domain_tag code) _ _ (named _ _ _ stocked.1.0) (
          of_two (leb_ratio signals.complexity_score (ratio 40 100)) _ _
            (named _ _ _ stocked.1.1.1.0) (named _ _ _ stocked.1.1.1.1.0)))

  pub and_then-Decides :
      (answer : Result ModelCandidate) (f : ModelCandidate → Result RoutingDecision)
      → Gives (Holds catalog) answer
      → ((c : ModelCandidate) → Holds catalog c → Decides catalog (f c))
      → Decides catalog (and_then answer f)
  and_then-Decides (ok a) f h go = go a h
  and_then-Decides (err x) f h go = cc

  cheapest_or_best-Gives :
      (request : RouterRequest) (signals : TaskSignals) (xs all : List ModelCandidate)
      → All (Holds catalog) xs
      → Filled (Holds catalog) all
      → Gives (Holds catalog) (cheapest_or_best request signals xs all)
  cheapest_or_best-Gives request signals [] all h f = min_by-Gives _ _ _ f
  cheapest_or_best-Gives request signals (c ∷ cs) all h f = min_by-Gives _ _ _ (c, cs, refl, h)

  -- `CostOptimalStrategy` decides.
  pub cost_optimal-Decides :
      Filled (Holds catalog) (values catalog)
      → (quality_floor : Ratio) (explain : ModelCandidate → String) (request : RouterRequest)
        (signals : TaskSignals)
      → Decides catalog (cost_optimal catalog quality_floor explain request signals)
  unfolding cost_optimal cost_optimal_candidate
  cost_optimal-Decides filled quality_floor explain request signals =
      and_then-Decides _ _
        (cheapest_or_best-Gives request signals _ _ (All-keep _ _ _ keyed) filled)
        (λ c h. named _ _ _ (c, h))

module _ (catalog : Catalog) (request : RouterRequest) (signals : TaskSignals)
    (filled : Filled (Holds catalog) (values catalog)) where
  -- `LeastBusyStrategy` decides.
  pub least_busy-Decides :
      (stats : InflightStats) (explain : ModelCandidate → String)
      → Decides catalog (least_busy request signals catalog stats explain)
  unfolding least_busy
  least_busy-Decides stats explain =
      head_decision-Decides catalog _ explain _
        (sort_by-Filled _ _ _ (eligible-Filled _ catalog signals filled))

  capped_or_least-Gives :
      (stats : InflightStats) (xs pool : List ModelCandidate)
      → All (Holds catalog) xs
      → Filled (Holds catalog) pool
      → Gives (Holds catalog) (capped_or_least request signals stats xs pool)
  capped_or_least-Gives stats [] pool h f = min_by-Gives _ _ _ f
  capped_or_least-Gives stats (c ∷ cs) pool h f = min_by-Gives _ _ _ (c, cs, refl, h)

  -- `ConcurrencyCapStrategy` decides.
  pub concurrency_cap-Decides :
      (stats : InflightStats) (cap : ℕ) (explain : ModelCandidate → String)
      → Decides catalog (concurrency_cap request signals catalog stats cap explain)
  unfolding concurrency_cap capped_candidate without
  concurrency_cap-Decides stats most explain =
      let pool = eligible-Filled (Holds catalog) catalog signals filled in
      let all = All-Filled _ _ pool in
      and_then-Decides catalog (All-Filled _ _ filled) _ _
        (capped_or_least-Gives stats _ _ (All-keep _ _ _ all) pool)
        (λ c h. (
          _,
          refl,
          ((c, h), Known-names catalog _ (All-take _ 3 _ (All-sort_by _ _ _ (All-keep _ _ _ all)))),
        ))

  healthy_fallback_chain-Known :
      (health : Health) (chosen : String)
      → Known catalog (healthy_fallback_chain catalog health chosen)
  unfolding healthy_fallback_chain without
  healthy_fallback_chain-Known health chosen = Known-take catalog 3 _ (
      Known-names catalog _ (
        All-sort_by _ _ _
          (All-keep _ (λ c. not (str_eq c.model chosen)) (values catalog) (All-Filled _ _ filled))))

  -- `ReliabilityAwareStrategy` decides.
  pub reliability_aware-Decides :
      (health : Health) (explain : ModelCandidate → String)
      → Decides catalog (reliability_aware catalog health explain request signals)
  unfolding reliability_aware reliable_candidate
  reliability_aware-Decides health explain =
      let pool = eligible-Filled (Holds catalog) catalog signals filled in
      and_then-Decides catalog (All-Filled _ _ filled) _ _
        (min_by-Gives _ _ _ (or_else-Filled _ _ _ (All-keep _ _ _ (All-Filled _ _ pool)) pool))
        (λ c h.
          decision-Decides catalog (healthy_fallback_chain catalog health) _ _ _ (c, h)
            (healthy_fallback_chain-Known health c.model))

  in_two-Filled :
      (before : Before ModelCandidate) (xs ys all : List ModelCandidate)
      → All (Holds catalog) xs
      → All (Holds catalog) ys
      → Filled (Holds catalog) all
      → Filled (Holds catalog) (in_two before xs ys all)
  in_two-Filled before [] ys all h k f = sort_by-Filled _ _ _ f
  in_two-Filled before (x ∷ xs) ys all h k f =
      Filled-append _ _ _ (sort_by-Filled _ before _ (x, xs, refl, h)) (All-sort_by _ _ _ k)

  -- `SoftRateLimitStrategy` decides.
  pub soft_rate_limit-Decides :
      (health : Health) (stats : RateLimitStats) (explain : ModelCandidate → String)
      → Decides catalog (soft_rate_limit catalog health stats explain request signals)
  unfolding soft_rate_limit rate_limit_ordered
  soft_rate_limit-Decides health stats explain =
      let pool = eligible-Filled (Holds catalog) catalog signals filled in
      let all = All-Filled _ _ pool in
      head_decision-Decides catalog _ explain _
        (in_two-Filled _ _ _ _ (All-keep _ _ _ all) (All-keep _ _ _ all) pool)
