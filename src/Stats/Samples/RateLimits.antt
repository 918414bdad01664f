-- ===== src/Stats/Samples/RateLimits.antt =====
-- `RateLimitStats` of router/strategies.py.
use nexus_llm_router.Prelude.{
  ℕ, ◌≤◌, String, Bool, Result, ok, err, value_error, List, [], ◌==◌, if◌then◌else◌, arith, length,
  count_true, count_true-le, push_capped, length-push_capped, eq_iff,
}
use nexus_llm_router.Prelude.Int.{ℤ, pos, pos_part, ltb_ℤ}
use nexus_llm_router.Prelude.Dict
use nexus_llm_router.Prelude.Dict.{Dict, get_or-put}
use nexus_llm_router.Prelude.Ratio.{Ratio, ratio, zero_ratio}

pub record RateLimitStats : Type 0 where
  pub max_observations : ℕ
  pub observations : Dict (List Bool)

unfoldable pub init : ℤ → Result RateLimitStats
init max_observations =
    if ltb_ℤ max_observations (pos 1)
    then err value_error
    else ok (record { max_observations = pos_part max_observations; observations = [] })

unfoldable pub observe : String → Bool → RateLimitStats → RateLimitStats
observe provider rate_limited s = record s {
  observations =
      Dict.put s.observations provider
        (push_capped s.max_observations rate_limited (Dict.get_or s.observations provider []));
}

unfoldable pub rate_limit_count : RateLimitStats → String → ℕ
rate_limit_count s provider = count_true (Dict.get_or s.observations provider [])

unfoldable pub rate_limit_rate : RateLimitStats → String → Ratio
unfolding rate_limit_count
rate_limit_rate s provider =
    let observations = Dict.get_or s.observations provider [] in
    if length observations == 0
    then zero_ratio
    else ratio (rate_limit_count s provider) (length observations)

abbrev pub IsBounded : RateLimitStats → Type 0
IsBounded s = (p : String) → length (Dict.get_or s.observations p []) ≤ s.max_observations

-- Where every window is within what the constructor allows, it is so after one more observation.
pub observe-IsBounded :
    (s : RateLimitStats) (p : String) (hit : Bool) → IsBounded s → IsBounded (observe p hit s)
unfolding observe
observe-IsBounded s p hit h q = ground (
  arith,
  eq_iff p q,
  h p,
  h q,
  length-push_capped s.max_observations hit (Dict.get_or s.observations p []),
  get_or-put s.observations p q
      (push_capped s.max_observations hit (Dict.get_or s.observations p [])) [],
)

-- The rate is a fraction of at most 1, and its denominator is not 0.
pub rate_limit_rate-le-one :
    (s : RateLimitStats) (p : String)
    → ((rate_limit_rate s p).num ≤ (rate_limit_rate s p).den) × (1 ≤ (rate_limit_rate s p).den)
unfolding rate_limit_rate
rate_limit_rate-le-one s p = ground (arith, count_true-le (Dict.get_or s.observations p []))
