-- ===== src/Stats/Samples/Latency.antt =====
-- `LatencyStats` and `LatencySlopeStats` of router/strategies.py. A percentile index
-- `min(n - 1, int(q * (n - 1)))` is computed with `q` in hundredths.
use nexus_llm_router.Prelude.{
  ℕ, ◌+◌, ◌-◌, ◌*◌, ◌/◌, ◌≤◌, min, String, List, [], ◌∷◌, ◌==◌, if◌then◌else◌, arith, length,
  push_capped, length-push_capped, eq_iff,
}
use nexus_llm_router.Prelude.Sorting.{sorted, get_or, sorted-IsSorted, get_or_mono}
use native.Mathlib.Nat.{mul-le-mul_right}
use nexus_llm_router.Prelude.Dict
use nexus_llm_router.Prelude.Dict.{Dict, get_or-put}
use nexus_llm_router.Prelude.Ratio.{Ratio, ratio, zero_ratio}

abbrev pub LatencyStats : Type 0
LatencyStats = Dict (List ℕ)

-- `observe` of `LatencyStats`, which keeps 100 observations
unfoldable pub observe : String → ℕ → LatencyStats → LatencyStats
unfolding push_capped
observe provider latency s =
    Dict.put s provider (push_capped 100 latency (Dict.get_or s provider []))

-- `p50`, `p95` and `p99`, by their hundredths
unfoldable pub percentile : ℕ → List ℕ → ℕ
percentile hundredths observations =
    let xs = sorted observations in
    let n = length xs in
    if n == 0 then 0 else get_or xs (min (n - 1) (hundredths * (n - 1) / 100)) 0

unfoldable pub p95 : LatencyStats → String → ℕ
unfolding percentile
p95 s provider = percentile 95 (Dict.get_or s provider [])

unfoldable pub p50 : LatencyStats → String → ℕ
unfolding percentile
p50 s provider = percentile 50 (Dict.get_or s provider [])

unfoldable pub p99 : LatencyStats → String → ℕ
unfolding percentile
p99 s provider = percentile 99 (Dict.get_or s provider [])

percentile_mono : (a b : ℕ) (xs : List ℕ) → a ≤ b → percentile a xs ≤ percentile b xs
unfolding percentile
percentile_mono a b xs h =
    let n = length (sorted xs) in
    let step : a * (n - 1) / 100 ≤ b * (n - 1) / 100 =
      omega (arith, mul-le-mul_right {m = a} {n = b} (n - 1) h) in
    ground (
      arith,
      get_or_mono (sorted xs) (min (n - 1) (a * (n - 1) / 100)) (min (n - 1) (b * (n - 1) / 100)) 0
          (sorted-IsSorted xs) (omega arith),
    )

-- The percentiles are in order, for every provider and any observations.
pub percentiles_ordered :
    (s : LatencyStats) (p : String) → (p50 s p ≤ p95 s p) × (p95 s p ≤ p99 s p)
unfolding p50 p95 p99
percentiles_ordered s p = (
  percentile_mono 50 95 (Dict.get_or s p []) (omega arith),
  percentile_mono 95 99 (Dict.get_or s p []) (omega arith),
)

abbrev pub IsRolling : ℕ → Dict (List ℕ) → Type 0
IsRolling n s = (p : String) → length (Dict.get_or s p []) ≤ n

-- Where no provider has more than 100 observations, none has after one more.
pub observe-IsRolling :
    (s : LatencyStats) (p : String) (latency : ℕ)
    → IsRolling 100 s
    → IsRolling 100 (observe p latency s)
unfolding observe
observe-IsRolling s p latency h q = ground (
  arith,
  eq_iff p q,
  h p,
  h q,
  length-push_capped 100 latency (Dict.get_or s p []),
  get_or-put s p q (push_capped 100 latency (Dict.get_or s p [])) [],
)

pub record LatencySlopeStats : Type 0 where
  pub window : ℕ
  pub alpha : Ratio
  pub samples : Dict (List ℕ)

unfoldable pub observe_slope : String → ℕ → LatencySlopeStats → LatencySlopeStats
observe_slope provider latency s = record s {
  samples =
      Dict.put s.samples provider
        (push_capped s.window latency (Dict.get_or s.samples provider []));
}

sum : List ℕ → ℕ
sum [] = 0
sum (x ∷ xs) = x + sum xs

unfoldable pub mean_latency : LatencySlopeStats → String → Ratio
unfolding sum
mean_latency s provider =
    let samples = Dict.get_or s.samples provider [] in
    if length samples == 0 then zero_ratio else ratio (sum samples) (length samples)
