-- ===== src/Stats/Outcomes/Success.antt =====
-- `SuccessStats` of router/strategies.py.
use nexus_llm_router.Prelude.{
  ℕ, ◌+◌, ◌≤◌, String, Bool, [], ◌∷◌, ◌==◌, if◌then◌else◌, arith, eq_iff,
}
use nexus_llm_router.Prelude.Dict
use nexus_llm_router.Prelude.Dict.{Dict, get_or-put}
use nexus_llm_router.Prelude.Ratio.{Ratio, ratio, one}

pub record SuccessStats : Type 0 where
  pub successes : Dict ℕ
  pub attempts : Dict ℕ

abbrev pub init : SuccessStats
init = record { successes = []; attempts = [] }

unfoldable pub observe : String → Bool → SuccessStats → SuccessStats
observe provider success s = record {
  attempts = Dict.put s.attempts provider (Dict.get_or s.attempts provider 0 + 1);
  successes =
      if success
      then Dict.put s.successes provider (Dict.get_or s.successes provider 0 + 1)
      else s.successes;
}

unfoldable pub success_rate : SuccessStats → String → Ratio
success_rate s provider =
    let attempts = Dict.get_or s.attempts provider 0 in
    if attempts == 0 then one else ratio (Dict.get_or s.successes provider 0) attempts

sum_values : Dict ℕ → ℕ
sum_values [] = 0
sum_values ((_, n) ∷ d) = n + sum_values d

unfoldable pub total_successes : SuccessStats → ℕ
unfolding sum_values
total_successes s = sum_values s.successes

-- No provider has more successes than attempts.
abbrev pub IsCounted : SuccessStats → Type 0
IsCounted s = (p : String) → Dict.get_or s.successes p 0 ≤ Dict.get_or s.attempts p 0

-- An observation, of a success or a failure, keeps it so: where no provider has more successes than
-- attempts, none has afterwards.
pub observe-IsCounted :
    (s : SuccessStats) (p : String) (success : Bool) → IsCounted s → IsCounted (observe p success s)
unfolding observe
observe-IsCounted s p success h q = ground (
  arith,
  h p,
  h q,
  eq_iff p q,
  get_or-put s.attempts p q (Dict.get_or s.attempts p 0 + 1) 0,
  get_or-put s.successes p q (Dict.get_or s.successes p 0 + 1) 0,
)

-- Where no provider has more successes than attempts, the success rate is a fraction of at most 1, of
-- a provider with no attempt too.
pub success_rate-le-one :
    (s : SuccessStats) (p : String)
    → IsCounted s
    → ((success_rate s p).num ≤ (success_rate s p).den) × (1 ≤ (success_rate s p).den)
unfolding success_rate
success_rate-le-one s p h = ground (arith, h p)
