-- ===== src/Scoreboard.antt =====
-- router/fallback_scoreboard.py: `ProviderFallbackScoreboard`, as the engine builds it: with no decay
-- (`decay_half_life_seconds=None`, so that `_apply_decay_locked` changes nothing). Counters are
-- numbers, latencies are in whole units, and a score is an exact fraction:
-- (s / a) / (1 + (l / a) / ref) is s * ref / (a * ref + l).
pub mod Ranking
use nexus_llm_router.Prelude.{
  ℕ, ◌+◌, ◌*◌, ◌-◌, String, Bool, true, false, Option, none, some, Result, Exec, ok, err,
  value_error, List, [], ◌∷◌, map, ltb, ◌==◌, if◌then◌else◌, str_eq,
}
use nexus_llm_router.Prelude.Int.{ℤ, pos, negsuc, pos_part, leb_ℤ}
use nexus_llm_router.Prelude.Ratio.{Ratio, ratio, zero_ratio, ltb_ratio}
use nexus_llm_router.Prelude.Dict
use nexus_llm_router.Prelude.Dict.{Dict}

pub record ProviderStats : Type 0 where
  pub successes : ℕ
  pub attempts : ℕ
  pub latency_sum : ℕ

abbrev pub no_stats : ProviderStats
no_stats = record { successes = 0; attempts = 0; latency_sum = 0 }

pub record ProviderFallbackScoreboard : Type 0 where
  pub latency_ref : ℕ
  pub stats : Dict ProviderStats

unfoldable pub init : ℤ → Result ProviderFallbackScoreboard
init latency_ref =
    if leb_ℤ latency_ref (pos 0)
    then err value_error
    else ok (record { latency_ref = pos_part latency_ref; stats = [] })

-- The counters after one more outcome.
unfoldable pub counted : Bool → ℕ → ProviderStats → ProviderStats
counted success latency s = record {
  successes = s.successes + (if success then 1 else 0);
  attempts = s.attempts + 1;
  latency_sum = s.latency_sum + latency;
}

unfoldable pub record_outcome : String → Bool → ℤ → Exec ProviderFallbackScoreboard (Unit {0})
unfolding counted
record_outcome provider success (negsuc n) b = (err value_error, b)
record_outcome provider success (pos latency) b =
    if str_eq provider ""
    then (err value_error, b)
    else let (stats, all) = Dict.setdefault b.stats provider no_stats in
      (ok tt, record b { stats = Dict.put all provider (counted success latency stats) })

-- `_score_locked`
unfoldable pub score_of : ℕ → ProviderStats → Ratio
score_of latency_ref s =
    if s.attempts == 0
    then zero_ratio
    else ratio (s.successes * latency_ref) (s.attempts * latency_ref + s.latency_sum)

unfoldable pub score : ProviderFallbackScoreboard → String → Result Ratio
unfolding score_of
score b provider =
    if str_eq provider "" then err value_error else elim (Dict.get b.stats provider) [
      | none ↦ ok zero_ratio
      | some stats ↦ ok (score_of b.latency_ref stats)
    ]

pub record ProviderHealthSnapshot : Type 0 where
  pub provider : String
  pub attempts : ℕ
  pub successes : ℕ
  pub success_rate : Ratio
  pub error_rate : Ratio
  pub avg_latency : Ratio
  pub score : Ratio

abbrev rate : ℕ → ℕ → Ratio
rate n attempts = if attempts == 0 then zero_ratio else ratio n attempts

unfoldable pub snapshot :
    ProviderFallbackScoreboard → String → Result (Option ProviderHealthSnapshot)
unfolding score_of
snapshot b provider =
    if str_eq provider "" then err value_error else elim (Dict.get b.stats provider) [
      | none ↦ ok none
      | some stats ↦
          let success_rate = rate stats.successes stats.attempts in
          ok (
            some (record {
              provider = provider;
              attempts = stats.attempts;
              successes = stats.successes;
              success_rate = success_rate;
              error_rate = ratio (success_rate.den - success_rate.num) success_rate.den;
              avg_latency = rate stats.latency_sum stats.attempts;
              score = score_of b.latency_ref stats;
            }))
    ]

-- The key by which `rank` sorts: the score, or minus infinity for a provider with no observation.
unfoldable pub rank_key : ProviderFallbackScoreboard → String → Option Ratio
unfolding score_of
rank_key b provider = elim (Dict.get b.stats provider) [
  | none ↦ none
  | some stats ↦ some (score_of b.latency_ref stats)
]

-- Whether the first key is strictly better.
unfoldable pub better : Option Ratio → Option Ratio → Bool
better none _ = false
better (some a) none = true
better (some a) (some b) = ltb_ratio b a

-- The sort by `(-score, index)` is stable: an equal key stays behind.
unfoldable pub place : ProviderFallbackScoreboard → String → List String → List String
place b p [] = p ∷ []
place b p (q ∷ qs) = if better (rank_key b q) (rank_key b p) then q ∷ place b p qs else p ∷ q ∷ qs

unfoldable pub rank_all : ProviderFallbackScoreboard → List String → List String
unfolding place
rank_all b [] = []
rank_all b (p ∷ ps) = place b p (rank_all b ps)

-- `providers()`
unfoldable pub known_providers : ProviderFallbackScoreboard → List String
known_providers b = Dict.keys b.stats

-- `rank(providers)`; with no list it ranks every provider that has an observation
unfoldable pub rank : ProviderFallbackScoreboard → Option (List String) → List String
unfolding rank_all known_providers
rank b none = rank_all b (known_providers b)
rank b (some providers) = rank_all b providers
