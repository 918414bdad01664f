-- ===== src/Stats/Windows.antt =====
-- The rolling windows of router/strategies.py: `_prune`, `record` and the totals, which
-- `FamilySpendWindow`, `ProviderHourlySpendWindow` and `TokenRpmWindow` spell out alike. A sample is
-- `(timestamp, amount)`; `timestamp < now - window` is written without the subtraction.
pub mod Totals
pub mod Family
pub mod Hourly
pub mod TokenRpm
pub mod Cascade
use nexus_llm_router.Prelude.{ℕ, ◌+◌, String, Bool, List, [], ◌∷◌, ◌++◌, ltb, if◌then◌else◌}
use nexus_llm_router.Prelude.Dict
use nexus_llm_router.Prelude.Dict.{Dict}

abbrev pub Samples : Type 0
Samples = List (ℕ × ℕ)

-- `while entries and entries[0][0] < cutoff: entries.pop(0)`
unfoldable pub drop_stale : ℕ → ℕ → Samples → Samples
drop_stale window now [] = []
drop_stale window now ((t, n) ∷ es) =
    let rest = drop_stale window now es in if ltb (t + window) now then rest else (t, n) ∷ es

-- `_entries[key] = entries`, or `_entries.pop(key, None)` when none are left
abbrev store : Dict Samples → String → Samples → Dict Samples
store d key [] = Dict.remove d key
store d key (e ∷ es) = Dict.put d key (e ∷ es)

unfoldable pub prune : ℕ → String → ℕ → Dict Samples → Dict Samples
prune window key now d = store d key (drop_stale window now (Dict.get_or d key []))

unfoldable pub record_sample : ℕ → String → ℕ → ℕ → Dict Samples → Dict Samples
unfolding prune
record_sample window key amount now d =
    let (samples, d') = Dict.setdefault d key [] in
    prune window key now (Dict.put d' key (samples ++ (now, amount) ∷ []))

-- `sum(amount for _, amount in entries)`
unfoldable pub total : Samples → ℕ
total [] = 0
total ((_, n) ∷ es) = n + total es

-- The pruned windows, and the total of one of them.
unfoldable pub read_total : ℕ → String → ℕ → Dict Samples → ℕ × Dict Samples
unfolding prune total
read_total window key now d = let d' = prune window key now d in (total (Dict.get_or d' key []), d')
