-- ===== src/Stats/Windows/Cascade.antt =====
-- `TenantBudgetCascadeStats` of router/strategies.py: the same window, trimmed by a filter and kept
-- under its key when it is empty.
use nexus_llm_router.Prelude.{
  ℕ, ◌+◌, ◌≡◌, ◌≤◌, refl, arith, str_eq, eq_iff, String, Result, Exec, ok, err, value_error, [],
  ◌∷◌, ◌++◌, ltb, if◌then◌else◌,
}
use nexus_llm_router.Prelude.Int.{ℤ, pos, negsuc, pos_part, leb_ℤ}
use nexus_llm_router.Prelude.Dict
use nexus_llm_router.Prelude.Dict.{Dict, get_or-put}
use nexus_llm_router.Stats.Windows.{Samples, total}
use nexus_llm_router.Stats.Windows.Totals.{recent, recent-append}

pub record TenantBudgetCascadeStats : Type 0 where
  pub window_seconds : ℕ
  pub observations : Dict Samples

unfoldable pub init : ℤ → Result TenantBudgetCascadeStats
init window_seconds =
    if leb_ℤ window_seconds (pos 0)
    then err value_error
    else ok (record { window_seconds = pos_part window_seconds; observations = [] })

-- the comprehension of `_trim`
unfoldable pub keep_recent : ℕ → ℕ → Samples → Samples
keep_recent window now [] = []
keep_recent window now ((t, n) ∷ es) =
    let rest = keep_recent window now es in if ltb (t + window) now then rest else (t, n) ∷ rest

unfoldable pub trim : String → ℕ → TenantBudgetCascadeStats → Samples × TenantBudgetCascadeStats
unfolding keep_recent
trim tenant_key now w =
    let kept = keep_recent w.window_seconds now (Dict.get_or w.observations tenant_key []) in
    (kept, record w { observations = Dict.put w.observations tenant_key kept })

unfoldable pub record_spend : String → ℤ → ℕ → Exec TenantBudgetCascadeStats (Unit {0})
unfolding trim
record_spend tenant_key (negsuc n) now w = (err value_error, w)
record_spend tenant_key (pos amount) now w =
    let (kept, w') = trim tenant_key now w in
    (
      ok tt,
      record w' { observations = Dict.put w'.observations tenant_key (kept ++ (now, amount) ∷ []) },
    )

unfoldable pub spend : String → ℕ → TenantBudgetCascadeStats → ℕ × TenantBudgetCascadeStats
unfolding trim total
spend tenant_key now w = let (kept, w') = trim tenant_key now w in (total kept, w')

total-keep_recent :
    (window now : ℕ) (es : Samples) → total (keep_recent window now es) ≡ recent window now es
unfolding total keep_recent recent
total-keep_recent window now [] = refl
total-keep_recent window now ((t, n) ∷ es) = ground (arith, total-keep_recent window now es)

keep_recent-later :
    (window now t : ℕ) (es : Samples)
    → t ≤ now
    → recent window now (keep_recent window t es) ≡ recent window now es
unfolding keep_recent recent
keep_recent-later window now t [] h = refl
keep_recent-later window now t ((u, n) ∷ es) h = ground (arith, keep_recent-later window now t es h)

-- The spend of a tenant right after a charge is what it was just before, and the charge; every other
-- tenant's is as before.
pub spend-record_spend :
    (w : TenantBudgetCascadeStats) (s t : String) (amount now : ℕ)
    → (spend t now (record_spend s (pos amount) now w).1).0
      ≡ (spend t now w).0 + (if str_eq s t then amount else 0)
unfolding spend record_spend trim recent
spend-record_spend w s t amount now =
    let es = Dict.get_or w.observations s [] in
    let kept = keep_recent w.window_seconds now es in
    ground (
      arith,
      eq_iff s t,
      get_or-put (Dict.put w.observations s kept) s t (kept ++ (now, amount) ∷ []) [],
      get_or-put w.observations s t kept [],
      total-keep_recent w.window_seconds now es,
      total-keep_recent w.window_seconds now (Dict.get_or w.observations t []),
      total-keep_recent w.window_seconds now (kept ++ (now, amount) ∷ []),
      recent-append w.window_seconds now kept now amount,
      keep_recent-later w.window_seconds now now es,
    )
