-- ===== src/Stats/Outcomes/Weights.antt =====
-- `ProviderWeightStats` of router/strategies.py, with exact fractions.
use nexus_llm_router.Prelude.{
  ℕ, ◌*◌, ◌≤◌, String, Bool, Result, ok, err, value_error, [], ◌&&◌, if◌then◌else◌, arith, eq_iff,
}
use native.Mathlib.Nat.{le_trans, mul-le-mul_left, mul-le-mul_right}
use nexus_llm_router.Prelude.Dict
use nexus_llm_router.Prelude.Dict.{Dict, get_or-put}
use nexus_llm_router.Prelude.Ratio.{
  Ratio, one, zero_ratio, ltb_ratio, leb_ratio, add_ratio, mul_ratio, min_ratio,
}

pub record ProviderWeightStats : Type 0 where
  pub decay_factor : Ratio
  pub recover : Ratio
  pub weights : Dict Ratio

-- `__init__`; that `recover` is not negative is its type
unfoldable pub init : Ratio → Ratio → Result ProviderWeightStats
init decay_factor recover =
    if ltb_ratio zero_ratio decay_factor && leb_ratio decay_factor one
    then ok (record { decay_factor = decay_factor; recover = recover; weights = [] })
    else err value_error

unfoldable pub weight : ProviderWeightStats → String → Ratio
weight s provider = Dict.get_or s.weights provider one

unfoldable pub observe : String → Bool → ProviderWeightStats → ProviderWeightStats
unfolding weight
observe provider success s =
    let current = weight s provider in
    record s {
      weights = Dict.put s.weights provider (
          if success
          then min_ratio one (add_ratio current s.recover)
          else mul_ratio current s.decay_factor);
    }

-- Weights are fractions of at most 1.
abbrev AtMostOne : Ratio → Type 0
AtMostOne r = r.num ≤ r.den

pub record IsNormal (s : ProviderWeightStats) : Type 0 where
  pub decay : AtMostOne s.decay_factor
  pub at : (p : String) → AtMostOne (weight s p)

mul-AtMostOne : (a b c d : ℕ) → a ≤ c → b ≤ d → a * b ≤ c * d
mul-AtMostOne a b c d h k = le_trans (mul-le-mul_right b h) (mul-le-mul_left c k)

-- Where the decay factor and every weight are at most 1, they still are after a success or a failure
-- of any provider.
pub observe-IsNormal :
    (s : ProviderWeightStats) (p : String) (success : Bool)
    → IsNormal s
    → IsNormal (observe p success s)
unfolding observe weight
observe-IsNormal s p success h = record {
  decay = h.decay;
  at = λ q. ground (
    arith,
    eq_iff p q,
    h.at p,
    h.at q,
    mul-AtMostOne (weight s p).num s.decay_factor.num (weight s p).den s.decay_factor.den,
    get_or-put s.weights p q (min_ratio one (add_ratio (weight s p) s.recover)) one,
    get_or-put s.weights p q (mul_ratio (weight s p) s.decay_factor) one,
  );
}
