-- ===== src/Stats/Outcomes/Resets.antt =====
-- `ProviderErrorBudgetResetStats` of router/strategies.py: error windows that start anew after a
-- fixed interval. `now - started_at >= reset_seconds` is written without the subtraction.
use nexus_llm_router.Prelude.{
  ℕ, ◌+◌, ◌-◌, ◌≤◌, ◌≡◌, String, Bool, false, Option, none, some, leb, if◌then◌else◌, arith, str_eq,
  eq_iff, Option-cases, inl, inr,
}
use nexus_llm_router.Prelude.Dict
use nexus_llm_router.Prelude.Dict.{Dict, get-put, get-remove}
use nexus_llm_router.Prelude.Ratio.{Ratio, ratio, zero_ratio}

pub record ErrorWindow : Type 0 where
  pub started_at : ℕ
  pub attempts : ℕ
  pub errors : ℕ

pub record ProviderErrorBudgetResetStats : Type 0 where
  pub reset_seconds : ℕ
  pub windows : Dict ErrorWindow

unfoldable pub active_window :
    String → ℕ → ProviderErrorBudgetResetStats → Option ErrorWindow × ProviderErrorBudgetResetStats
active_window provider now s = elim (Dict.get s.windows provider) [
  | none ↦ (none, s)
  | some window ↦
      if leb (window.started_at + s.reset_seconds) now
      then (none, record s { windows = Dict.remove s.windows provider })
      else (some window, s)
]

abbrev base_window : ℕ → Option ErrorWindow → ErrorWindow
base_window now none = record { started_at = now; attempts = 0; errors = 0 }
base_window now (some w) = w

-- The window after one more result.
abbrev bumped : Bool → ErrorWindow → ErrorWindow
bumped success w = record w {
  attempts = w.attempts + 1;
  errors = w.errors + (if success then 0 else 1);
}

unfoldable pub observe :
    String → Bool → ℕ → ProviderErrorBudgetResetStats → ProviderErrorBudgetResetStats
unfolding active_window
observe provider success now s =
    let (window, s') = active_window provider now s in
    record s' { windows = Dict.put s'.windows provider (bumped success (base_window now window)) }

unfoldable pub error_rate :
    String → ℕ → ProviderErrorBudgetResetStats → Ratio × ProviderErrorBudgetResetStats
unfolding active_window
error_rate provider now s =
    let (window, s') = active_window provider now s in
    elim window [ none ↦ (zero_ratio, s') | some w ↦ (ratio w.errors w.attempts, s') ]

unfoldable pub seconds_until_reset :
    String → ℕ → ProviderErrorBudgetResetStats → ℕ × ProviderErrorBudgetResetStats
unfolding active_window
seconds_until_reset provider now s =
    let (window, s') = active_window provider now s in
    elim window [ none ↦ (0, s') | some w ↦ (s.reset_seconds - (now - w.started_at), s') ]

-- Every window has at least one attempt, and no more errors than attempts, so that the division in
-- `error_rate` is defined and the rate is at most 1.
pub record IsSane (s : ProviderErrorBudgetResetStats) : Type 0 where
  pub at :
      (p : String) (w : ErrorWindow)
      → Dict.get s.windows p ≡ some w
      → (1 ≤ w.attempts) × (w.errors ≤ w.attempts)

kept-window :
    (s : ProviderErrorBudgetResetStats) (p q : String) (now : ℕ)
    → str_eq p q ≡ false
    → Dict.get (active_window p now s).1.windows q ≡ Dict.get s.windows q
unfolding active_window
kept-window s p q now ne = ground (arith, get-remove s.windows p q)

-- The window that an observation goes on from has no more errors than attempts.
active_window-IsSane :
    (s : ProviderErrorBudgetResetStats) (p : String) (now : ℕ)
    → IsSane s
    → (base_window now (active_window p now s).0).errors
      ≤ (base_window now (active_window p now s).0).attempts
unfolding active_window
active_window-IsSane s p now h = elim (Option-cases (Dict.get s.windows p)) [
  | inl e ↦ ground (arith, e)
  | inr (w, e) ↦ ground (arith, e, h.at p w e)
]

-- Where every window has an attempt and no more errors than attempts, it is so after an observation at
-- any time, which may start a window anew.
pub observe-IsSane :
    (s : ProviderErrorBudgetResetStats) (p : String) (success : Bool) (now : ℕ)
    → IsSane s
    → IsSane (observe p success now s)
unfolding observe
observe-IsSane s p success now h = record {
  at = λ q w e. ground (
    arith,
    eq_iff p q,
    h.at q w,
    kept-window s p q now,
    get-put (active_window p now s).1.windows p q
        (bumped success (base_window now (active_window p now s).0)),
    active_window-IsSane s p now h,
  );
}
