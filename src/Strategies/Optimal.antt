-- ===== src/Strategies/Optimal.antt =====
-- Which candidate the strategies of router/strategies.py choose: the best of those that pass.
use nexus_llm_router.Prelude.{
  ℕ, ◌≡◌, ◌≤◌, refl, sym, Bool, true, false, Result, ok, err, List, [], ◌∷◌, inl, inr, ◌⊎◌,
}
use nexus_llm_router.Prelude.Choice.{
  Before, All, All-imp, All-both, keep, by, by_text, All-keep, All-keep-test, first_by-All,
  first_by-IsFirst, IsOrder, IsOrder-then_by, IsOrder-by, IsOrder-by_ratio, IsOrder-by_text,
  IsOrder-down,
}
use nexus_llm_router.Prelude.Ratio.{Ratio}
use nexus_llm_router.Schemas.{RouterRequest, TaskSignals, ModelCandidate}
use nexus_llm_router.Stats.Inflight.{InflightStats}
use nexus_llm_router.Strategies.Base.{Catalog, values, request_cost, min_by, by_quality, or_else}
use nexus_llm_router.Strategies.Decided.{Holds, Gives, Filled, All-Filled}
use nexus_llm_router.Strategies.Basic.{feasible, cheapest_or_best, cost_optimal_candidate}
use nexus_llm_router.Strategies.Load.{
  by_merit, by_load, by_worth, under_cap, capped_or_least, capped_candidate,
}
use nexus_llm_router.Strategies.Health.{Health, is_healthy, by_value, reliable_candidate}

-- The quality of a candidate is a fraction.
abbrev pub Scored : ModelCandidate → Type 0
Scored c = 1 ≤ c.quality_score.den

-- No candidate of the list comes before this one.
abbrev pub IsFirst : Before ModelCandidate → List ModelCandidate → ModelCandidate → Type 0
IsFirst before xs c = All (λ x. before x c ≡ false) xs

-- The choice from those of the list that pass the test by one order; where none passes, the choice from
-- all by another one.
abbrev pub IsBest :
    (ModelCandidate → Bool)
    → Before ModelCandidate
    → Before ModelCandidate
    → List ModelCandidate
    → ModelCandidate
    → Type 0
IsBest test best last xs c =
    ((test c ≡ true) × IsFirst best (keep test xs) c) ⊎ ((keep test xs ≡ []) × IsFirst last xs c)

Gives-imp :
    (P Q : ModelCandidate → Type 0) (answer : Result ModelCandidate)
    → ((c : ModelCandidate) → P c → Q c)
    → Gives P answer
    → Gives Q answer
Gives-imp P Q (ok c) f h = f c h
Gives-imp P Q (err e) f h = h

module _ (Q : ModelCandidate → Type 0) (before : Before ModelCandidate)
    (o : IsOrder Scored before) where
  -- `min` of a list that is not empty.
  min_by-IsFirst :
      (xs : List ModelCandidate)
      → Filled (λ c. Q c × Scored c) xs
      → Gives (λ c. (Q c × Scored c) × IsFirst before xs c) (min_by before xs)
  unfolding min_by
  min_by-IsFirst xs (x, rest, e, h) =
      let scored = All-imp _ Scored (x ∷ rest) (λ c p. p.1) h in
      rw e (
        first_by-All (λ c. Q c × Scored c) before x rest h.0 h.1,
        first_by-IsFirst Scored before o x rest scored.0 scored.1,
      )

module _ (Q : ModelCandidate → Type 0) (best last : Before ModelCandidate) (b : IsOrder Scored best)
    (l : IsOrder Scored last) (test : ModelCandidate → Bool) where
  -- The two cases of a choice, for the list that the test keeps.
  choice_of_kept :
      (xs ys : List ModelCandidate) (choice : List ModelCandidate → Result ModelCandidate)
      → ys ≡ keep test xs
      → choice [] ≡ min_by last xs
      → ((c : ModelCandidate) (cs : List ModelCandidate) → choice (c ∷ cs) ≡ min_by best (c ∷ cs))
      → All (λ c. (Q c × (test c ≡ true)) × Scored c) ys
      → Filled (λ c. Q c × Scored c) xs
      → Gives (λ c. Q c × IsBest test best last xs c) (choice ys)
  choice_of_kept xs [] choice e f g h s = rw f (
      Gives-imp _ (λ c. Q c × IsBest test best last xs c) (min_by last xs)
        (λ c k. (k.0.0, inr (sym e, k.1))) (min_by-IsFirst Q last l xs s))
  choice_of_kept xs (y ∷ ys) choice e f g h s = rw (g y ys) (
      Gives-imp _ (λ c. Q c × IsBest test best last xs c) (min_by best (y ∷ ys))
        (λ c k. (k.0.0.0, inl (k.0.0.1, rw (← e) k.1)))
        (min_by-IsFirst (λ c. Q c × (test c ≡ true)) best b (y ∷ ys) (y, ys, refl, h)))

  choice-IsBest :
      (xs : List ModelCandidate) (choice : List ModelCandidate → Result ModelCandidate)
      → choice [] ≡ min_by last xs
      → ((c : ModelCandidate) (cs : List ModelCandidate) → choice (c ∷ cs) ≡ min_by best (c ∷ cs))
      → Filled (λ c. Q c × Scored c) xs
      → Gives (λ c. Q c × IsBest test best last xs c) (choice (keep test xs))
  choice-IsBest xs choice f g s =
      let all = All-keep (λ c. Q c × Scored c) test xs (All-Filled _ xs s) in
      choice_of_kept xs (keep test xs) choice refl f g
        (All-imp _ _ (keep test xs) (λ c k. ((k.0.0, k.1), k.0.1))
          (All-both _ _ (keep test xs) all (All-keep-test test xs)))
        s

IsOrder-by_quality : IsOrder Scored by_quality
IsOrder-by_quality =
    IsOrder-down Scored _ (IsOrder-by_ratio Scored (λ c. c.quality_score) (λ c h. h))

IsOrder-by_cost :
    (request : RouterRequest) (signals : TaskSignals)
    → IsOrder Scored (by (request_cost request signals))
IsOrder-by_cost request signals = IsOrder-by Scored _

IsOrder-by_name : IsOrder Scored (by_text (λ c. c.model))
IsOrder-by_name = IsOrder-by_text Scored _

IsOrder-by_merit :
    (request : RouterRequest) (signals : TaskSignals) → IsOrder Scored (by_merit request signals)
IsOrder-by_merit request signals =
    IsOrder-then_by Scored _ _ IsOrder-by_quality
      (IsOrder-then_by Scored _ _ (IsOrder-by_cost request signals) IsOrder-by_name)

-- The candidates of the catalog are under their own names and have fractions as qualities.
abbrev pub IsScored : Catalog → Type 0
IsScored catalog = Filled (λ c. Holds catalog c × Scored c) (values catalog)

-- `CostOptimalStrategy` chooses a candidate of the catalog: one that meets the quality floor, the domain
-- and the latency, and no such candidate is cheaper for the request; or, where none meets them, one of
-- the highest quality. The catalog has a candidate, maps each name to the candidate of that name, and
-- qualities are fractions.
pub cost_optimal_candidate-IsBest :
    (catalog : Catalog) (quality_floor : Ratio) (request : RouterRequest) (signals : TaskSignals)
    → IsScored catalog
    → Gives
        (λ c.
          Holds catalog c
          × IsBest
              (feasible quality_floor signals)
              (by (request_cost request signals))
              by_quality
              (values catalog)
              c)
        (cost_optimal_candidate catalog quality_floor request signals)
unfolding cost_optimal_candidate
cost_optimal_candidate-IsBest catalog quality_floor request signals scored =
    choice-IsBest (Holds catalog) (by (request_cost request signals)) by_quality
      (IsOrder-by_cost request signals) IsOrder-by_quality (feasible quality_floor signals)
      (values catalog) (λ ys. cheapest_or_best request signals ys (values catalog)) refl
      (λ c cs. refl) scored

IsOrder-by_load :
    (request : RouterRequest) (signals : TaskSignals) (stats : InflightStats)
    → IsOrder Scored (by_load request signals stats)
unfolding by_load
IsOrder-by_load request signals stats =
    IsOrder-then_by Scored _ _ (IsOrder-by Scored _) (IsOrder-by_merit request signals)

IsOrder-by_worth :
    (request : RouterRequest) (signals : TaskSignals) → IsOrder Scored (by_worth request signals)
unfolding by_worth
IsOrder-by_worth request signals = IsOrder-then_by Scored _ _ IsOrder-by_quality (
    IsOrder-then_by Scored _ _ (IsOrder-by_cost request signals)
      (IsOrder-down Scored _ IsOrder-by_name))

-- `ConcurrencyCapStrategy` chooses a candidate of the pool: one of a provider below the cap, and none of
-- those is better by quality, cost and name; or, where every provider is at the cap, the one that
-- `LeastBusyStrategy` orders first. The pool is not empty, and qualities are fractions.
pub capped_candidate-IsBest :
    (Q : ModelCandidate → Type 0) (request : RouterRequest) (signals : TaskSignals)
    (stats : InflightStats) (most : ℕ) (pool : List ModelCandidate)
    → Filled (λ c. Q c × Scored c) pool
    → Gives
        (λ c.
          Q c
          × IsBest
              (under_cap request signals stats most)
              (by_worth request signals)
              (by_load request signals stats)
              pool
              c)
        (capped_candidate request signals stats most pool)
unfolding capped_candidate
capped_candidate-IsBest Q request signals stats most pool scored =
    choice-IsBest Q (by_worth request signals) (by_load request signals stats)
      (IsOrder-by_worth request signals) (IsOrder-by_load request signals stats)
      (under_cap request signals stats most) pool
      (λ ys. capped_or_least request signals stats ys pool) refl (λ c cs. refl) scored

IsOrder-by_value :
    (request : RouterRequest) (signals : TaskSignals) → IsOrder Scored (by_value request signals)
unfolding by_value
IsOrder-by_value request signals =
    IsOrder-then_by Scored _ _ IsOrder-by_quality (IsOrder-by_cost request signals)

-- `ReliabilityAwareStrategy` chooses a candidate of the pool: one of a healthy provider, and none of those
-- has a higher quality, or the same at a lower cost; or, where no provider is healthy, the best of all
-- by the same order. The pool is not empty, and qualities are fractions.
pub reliable_candidate-IsBest :
    (Q : ModelCandidate → Type 0) (health : Health) (request : RouterRequest)
    (signals : TaskSignals) (pool : List ModelCandidate)
    → Filled (λ c. Q c × Scored c) pool
    → Gives
        (λ c.
          Q c
          × IsBest (is_healthy health) (by_value request signals) (by_value request signals) pool c)
        (reliable_candidate health request signals pool)
unfolding reliable_candidate
reliable_candidate-IsBest Q health request signals pool scored =
    choice-IsBest Q (by_value request signals) (by_value request signals)
      (IsOrder-by_value request signals) (IsOrder-by_value request signals) (is_healthy health) pool
      (λ ys. min_by (by_value request signals) (or_else ys pool)) refl (λ c cs. refl) scored
