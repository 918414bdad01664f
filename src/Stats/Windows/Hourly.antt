-- ===== src/Stats/Windows/Hourly.antt =====
-- `ProviderHourlySpendWindow` of router/strategies.py.
use nexus_llm_router.Prelude.{ℕ, String, Bool, Result, ok, err, value_error, [], ltb, if◌then◌else◌}
use nexus_llm_router.Prelude.Int.{ℤ, pos, pos_part, leb_ℤ}
use nexus_llm_router.Prelude.Dict.{Dict}
use nexus_llm_router.Stats.Windows.{Samples, record_sample, read_total}

pub record ProviderHourlySpendWindow : Type 0 where
  pub window_seconds : ℕ
  pub entries : Dict Samples

unfoldable pub init : ℤ → Result ProviderHourlySpendWindow
init window_seconds =
    if leb_ℤ window_seconds (pos 0)
    then err value_error
    else ok (record { window_seconds = pos_part window_seconds; entries = [] })

unfoldable pub record_spend : String → ℕ → ℕ → ProviderHourlySpendWindow → ProviderHourlySpendWindow
unfolding record_sample
record_spend provider amount_usd now w = record w {
  entries = record_sample w.window_seconds provider amount_usd now w.entries;
}

unfoldable pub provider_spend :
    String → ℕ → ProviderHourlySpendWindow → ℕ × ProviderHourlySpendWindow
unfolding read_total
provider_spend provider now w =
    let (spend, entries) = read_total w.window_seconds provider now w.entries in
    (spend, record w { entries = entries })

unfoldable pub is_over_ceiling :
    String → ℕ → ℕ → ProviderHourlySpendWindow → Bool × ProviderHourlySpendWindow
unfolding provider_spend
is_over_ceiling provider ceiling_usd now w =
    let (spend, w') = provider_spend provider now w in (ltb ceiling_usd spend, w')
