-- ===== src/Strategies/Pareto.antt =====
-- `CostLatencyParetoStrategy` of router/strategies.py: the front of the candidates that no other one
-- dominates.
use nexus_llm_router.Prelude.{
  ℕ, ◌≡◌, ◌≢◌, ◌≤◌, ◌<◌, refl, ap, arith, eq_iff, str_eq, some, String, Bool, false, not, ◌⊎◌, List,
  [], ◌∷◌, Bool-cases, inl, inr,
}
use nexus_llm_router.Prelude.Choice.{
  Before, All, All-imp, All-both, keep, first_by, then_by, by, All-keep, All-keep-test,
  first_by-All, first_by-IsFirst, IsOrder, IsOrder-then_by, IsOrder-by,
}
use nexus_llm_router.Prelude.Dict
use nexus_llm_router.Prelude.Dict.{Dict, get_or-put}
use nexus_llm_router.Schemas.{RouterRequest, TaskSignals, ModelCandidate}
use nexus_llm_router.Stats.Samples.Latency.{LatencyStats, p95}
use nexus_llm_router.Strategies.Base.{Catalog, values, request_cost, fallback_chain}
use nexus_llm_router.Strategies.Load.{
  measured, looked_up, costs_of, latencies_of, dominates, any_dominates, pareto_front,
  pareto_candidate, cost_latency_pareto,
}
use nexus_llm_router.Strategies.Decided.{
  Holds, Decides, Gives, Filled, All-Filled, Filled-with, Filled-imp, eligible-Filled,
  decision-Decides, fallback_chain-Known, min_by-Gives,
}
use nexus_llm_router.Strategies.Chosen.{and_then-Decides}

module _ (costs latencies : Dict ℕ) where
  -- lower cost, then lower latency
  abbrev by_pains : Before ModelCandidate
  by_pains = then_by (by (looked_up costs)) (by (looked_up latencies))

  IsOrder-by_pains : (P : ModelCandidate → Type 0) → IsOrder P by_pains
  IsOrder-by_pains P = IsOrder-then_by P _ _ (IsOrder-by P _) (IsOrder-by P _)

  -- A candidate that dominates another one comes before it.
  dominates-by_pains :
      (x c : ModelCandidate) → by_pains x c ≡ false → dominates costs latencies x c ≡ false
  unfolding dominates then_by by
  dominates-by_pains x c h = ground (arith, h)

  not_dominated :
      (xs : List ModelCandidate) (c : ModelCandidate)
      → All (λ x. by_pains x c ≡ false) xs
      → any_dominates costs latencies xs c ≡ false
  unfolding any_dominates
  not_dominated [] c h = refl
  not_dominated (x ∷ xs) c h = rw (dominates-by_pains x c h.0) (not_dominated xs c h.1)

  any_dominates-All :
      (xs : List ModelCandidate) (c : ModelCandidate)
      → any_dominates costs latencies xs c ≡ false
      → All (λ x. dominates costs latencies x c ≡ false) xs
  unfolding any_dominates
  any_dominates-All [] c h = tt
  any_dominates-All (x ∷ xs) c h = (ground (arith, h), any_dominates-All xs c (ground (arith, h)))

  keep-Filled :
      (P : ModelCandidate → Type 0) (test : ModelCandidate → Bool) (xs : List ModelCandidate)
      → All P xs
      → Filled P (keep test xs) ⊎ All (λ x. test x ≡ false) xs
  unfolding keep
  keep-Filled P test [] h = inr tt
  keep-Filled P test (x ∷ xs) h = elim (Bool-cases (test x)) [
    | inl kept ↦ rw kept (inl (x, _, refl, (h.0, All-keep P test xs h.1)))
    | inr dropped ↦ elim (keep-Filled P test xs h.1) [
      | inl some_kept ↦ rw dropped (inl some_kept)
      | inr none_kept ↦ rw dropped (inr (refl, none_kept))
    ]
  ]

  -- The cheapest candidate, the fastest of the cheapest, is in the front: the front of a pool that is
  -- not empty is not empty.
  front_of_some :
      (P : ModelCandidate → Type 0) (c : ModelCandidate) (cs : List ModelCandidate)
      → All P (c ∷ cs)
      → Filled P (pareto_front costs latencies (c ∷ cs))
  unfolding pareto_front
  front_of_some P c cs h =
      let test = λ (x : ModelCandidate). not (any_dominates costs latencies (c ∷ cs) x) in
      let least = first_by by_pains c cs in
      let lone =
        not_dominated (c ∷ cs) least
          (first_by-IsFirst _ by_pains (IsOrder-by_pains (λ x. Unit {0})) c cs tt (All-Unit cs)) in
      elim (keep-Filled P test (c ∷ cs) h) [
        | inl filled ↦ filled
        | inr none_kept ↦
            absurd_test least lone
              (first_by-All (λ x. test x ≡ false) by_pains c cs none_kept.0 none_kept.1)
      ]
    where
      All-Unit : (xs : List ModelCandidate) → All (λ x. Unit {0}) xs
      All-Unit [] = tt
      All-Unit (x ∷ xs) = (tt, All-Unit xs)

      absurd_test :
          (x : ModelCandidate)
          → any_dominates costs latencies (c ∷ cs) x ≡ false
          → not (any_dominates costs latencies (c ∷ cs) x) ≡ false
          → Filled P (pareto_front costs latencies (c ∷ cs))
      absurd_test x lone kept = cc

  pub pareto_front-Filled :
      (P : ModelCandidate → Type 0) (pool : List ModelCandidate)
      → Filled P pool
      → Filled P (pareto_front costs latencies pool)
  pareto_front-Filled P pool (c, cs, e, h) = rw e (front_of_some P c cs h)

  front-undominated :
      (P : ModelCandidate → Type 0) (pool : List ModelCandidate)
      → Filled P pool
      → Filled
          (λ c. P c × All (λ x. dominates costs latencies x c ≡ false) pool)
          (pareto_front costs latencies pool)
  unfolding pareto_front
  front-undominated P pool filled =
      let test = λ (c : ModelCandidate). not (any_dominates costs latencies pool c) in
      Filled-with P _ _ (pareto_front-Filled P pool filled) (
        All-both P _ (keep test pool) (All-keep P test pool (All-Filled P pool filled)) (
          All-imp _ _ (keep test pool) (λ c h. any_dominates-All pool c (ground (arith, h)))
            (All-keep-test test pool)))

-- A dict of measures by name is right for the candidates of a catalog: candidates of one name are one.
module _ (catalog : Catalog) (measure : ModelCandidate → ℕ) where
  measured-keeps :
      (d : Dict ℕ) (xs : List ModelCandidate) (c : ModelCandidate)
      → Holds catalog c
      → All (Holds catalog) xs
      → looked_up d c ≡ measure c
      → looked_up (measured measure d xs) c ≡ measure c
  unfolding measured
  measured-keeps d [] c k h e = e
  measured-keeps d (x ∷ xs) c k h e =
      measured-keeps (Dict.put d x.model (measure x)) xs c k h.1
        (elim (Bool-cases (str_eq x.model c.model)) [
          | inl same ↦
              let n : x.model ≡ c.model = ground (arith, same, eq_iff x.model c.model) in
              let found : Dict.get catalog c.model ≡ some x = rw (← n) h.0 in
              let one : x ≡ c = cc in
              ground (arith, get_or-put d x.model c.model (measure x) 0, same, ap measure one)
          | inr other ↦ ground (arith, get_or-put d x.model c.model (measure x) 0, other, e)
        ])

  measured-looked_up :
      (d : Dict ℕ) (xs : List ModelCandidate)
      → All (Holds catalog) xs
      → All (λ c. looked_up (measured measure d xs) c ≡ measure c) xs
  unfolding measured
  measured-looked_up d [] h = tt
  measured-looked_up d (x ∷ xs) h = (
    measured-keeps (Dict.put d x.model (measure x)) xs x h.0 h.1
        (ground (arith, get_or-put d x.model x.model (measure x) 0, eq_iff x.model x.model)),
    measured-looked_up (Dict.put d x.model (measure x)) xs h.1,
  )

module _ (request : RouterRequest) (signals : TaskSignals) (stats : LatencyStats)
    (catalog : Catalog) where
  -- No dearer, no slower, and better in one of the two: by the candidates' own cost and latency.
  abbrev pub IsBetter : ModelCandidate → ModelCandidate → Type 0
  IsBetter x c =
      let cost = request_cost request signals in
      let latency = λ (m : ModelCandidate). p95 stats m.provider in
      (x.model ≢ c.model)
      × (cost x ≤ cost c)
      × (latency x ≤ latency c)
      × ((cost x < cost c) ⊎ (latency x < latency c))

  abbrev Measured : Dict ℕ → Dict ℕ → ModelCandidate → Type 0
  Measured costs latencies c =
      (looked_up costs c ≡ request_cost request signals c)
      × (looked_up latencies c ≡ p95 stats c.provider)

  undominated-best :
      (costs latencies : Dict ℕ) (x c : ModelCandidate)
      → Measured costs latencies x
      → Measured costs latencies c
      → dominates costs latencies x c ≡ false
      → ¬ IsBetter x c
  unfolding dominates
  undominated-best costs latencies x c m n h better =
      ground (arith, h, m, n, better, eq_iff x.model c.model)

  -- `CostLatencyParetoStrategy` chooses a candidate of the pool that no candidate of another name in the
  -- pool is better than: no dearer and no slower, and better in one of the two. The front is never
  -- empty, so `min` does not raise. The pool is not empty, and comes from a catalog that has each
  -- candidate under its own name.
  pub pareto_candidate-IsOptimal :
      (pool : List ModelCandidate)
      → Filled (Holds catalog) pool
      → Gives
          (λ c. Holds catalog c × All (λ x. ¬ IsBetter x c) pool)
          (pareto_candidate request signals stats pool)
  unfolding pareto_candidate costs_of latencies_of
  pareto_candidate-IsOptimal pool filled =
      let held = All-Filled (Holds catalog) pool filled in
      let costs = costs_of request signals pool in
      let latencies = latencies_of request signals stats pool in
      let right : All (Measured costs latencies) pool =
        All-both _ _ pool (measured-looked_up catalog (request_cost request signals) [] pool held)
          (measured-looked_up catalog (λ c. p95 stats c.provider) [] pool held) in
      min_by-Gives _ _ _ (
        Filled-imp _ _ _
          (λ c h. (
            h.0.0,
            All-imp _ _ pool (λ x k. undominated-best costs latencies x c k.1 h.0.1 k.0)
                (All-both _ _ pool h.1 right),
          ))
          (front-undominated costs latencies (λ c. Holds catalog c × Measured costs latencies c)
            pool (Filled-with (Holds catalog) _ _ filled (All-both _ _ pool held right))))

  -- `CostLatencyParetoStrategy` decides.
  pub cost_latency_pareto-Decides :
      (explain : ModelCandidate → String)
      → Filled (Holds catalog) (values catalog)
      → Decides catalog (cost_latency_pareto request signals catalog stats explain)
  unfolding cost_latency_pareto pareto_candidate
  cost_latency_pareto-Decides explain filled =
      and_then-Decides catalog (All-Filled _ _ filled) _ _
        (min_by-Gives _ _ _
          (pareto_front-Filled _ _ _ _ (eligible-Filled (Holds catalog) catalog signals filled)))
        (λ c h.
          decision-Decides catalog (fallback_chain catalog) _ _ _ (c, h)
            (fallback_chain-Known catalog c.model (All-Filled _ _ filled)))
