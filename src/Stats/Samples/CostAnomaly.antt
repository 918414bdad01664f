-- ===== src/Stats/Samples/CostAnomaly.antt =====
-- `CostAnomalyStats` of router/strategies.py. A sample is a cost per 1000 tokens, an exact fraction.
use nexus_llm_router.Prelude.{
  ℕ, ◌*◌, ◌≤◌, List, [], ◌∷◌, ◌==◌, if◌then◌else◌, length, push_capped, length-push_capped,
}
use nexus_llm_router.Prelude.Ratio.{Ratio, ratio, zero_ratio, add_ratio}

pub record CostAnomalyStats : Type 0 where
  pub max_observations : ℕ
  pub observations : List Ratio

unfoldable pub observe : Ratio → CostAnomalyStats → CostAnomalyStats
observe cost_per_1k s = record s {
  observations = push_capped s.max_observations cost_per_1k s.observations;
}

sum : List Ratio → Ratio
sum [] = zero_ratio
sum (x ∷ xs) = add_ratio x (sum xs)

unfoldable pub mean : CostAnomalyStats → Ratio
unfolding sum
mean s =
    if length s.observations == 0
    then zero_ratio
    else let total = sum s.observations in ratio total.num (total.den * length s.observations)

-- A window within its size is within it after one more sample.
pub observe_bounded :
    (cost_per_1k : Ratio) (s : CostAnomalyStats)
    → length s.observations ≤ s.max_observations
    → length (observe cost_per_1k s).observations ≤ (observe cost_per_1k s).max_observations
unfolding observe
observe_bounded cost_per_1k s h = length-push_capped s.max_observations cost_per_1k s.observations h
