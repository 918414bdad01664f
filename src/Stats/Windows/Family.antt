-- ===== src/Stats/Windows/Family.antt =====
-- `FamilySpendWindow` of router/strategies.py.
use nexus_llm_router.Prelude.{ℕ, String, Bool, Result, ok, err, value_error, [], ltb, if◌then◌else◌}
use nexus_llm_router.Prelude.Int.{ℤ, pos, pos_part, leb_ℤ}
use nexus_llm_router.Prelude.Dict.{Dict}
use nexus_llm_router.Stats.Windows.{Samples, record_sample, read_total}

pub record FamilySpendWindow : Type 0 where
  pub window_seconds : ℕ
  pub entries : Dict Samples

unfoldable pub init : ℤ → Result FamilySpendWindow
init window_seconds =
    if leb_ℤ window_seconds (pos 0)
    then err value_error
    else ok (record { window_seconds = pos_part window_seconds; entries = [] })

unfoldable pub record_spend : String → ℕ → ℕ → FamilySpendWindow → FamilySpendWindow
unfolding record_sample
record_spend provider_family amount_usd now w = record w {
  entries = record_sample w.window_seconds provider_family amount_usd now w.entries;
}

unfoldable pub family_spend : String → ℕ → FamilySpendWindow → ℕ × FamilySpendWindow
unfolding read_total
family_spend provider_family now w =
    let (spend, entries) = read_total w.window_seconds provider_family now w.entries in
    (spend, record w { entries = entries })

unfoldable pub is_over_budget : String → ℕ → ℕ → FamilySpendWindow → Bool × FamilySpendWindow
unfolding family_spend
is_over_budget provider_family soft_budget_usd now w =
    let (spend, w') = family_spend provider_family now w in (ltb soft_budget_usd spend, w')
