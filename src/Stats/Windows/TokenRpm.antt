-- ===== src/Stats/Windows/TokenRpm.antt =====
-- `TokenRpmWindow` of router/strategies.py.
use nexus_llm_router.Prelude.{
  ℕ, ◌+◌, String, Bool, Result, Exec, ok, err, value_error, [], ltb, if◌then◌else◌,
}
use nexus_llm_router.Prelude.Int.{ℤ, pos, negsuc, pos_part, leb_ℤ}
use nexus_llm_router.Prelude.Dict.{Dict}
use nexus_llm_router.Stats.Windows.{Samples, record_sample, read_total}

pub record TokenRpmWindow : Type 0 where
  pub window_seconds : ℕ
  pub entries : Dict Samples

unfoldable pub init : ℤ → Result TokenRpmWindow
init window_seconds =
    if leb_ℤ window_seconds (pos 0)
    then err value_error
    else ok (record { window_seconds = pos_part window_seconds; entries = [] })

-- `record`; a negative number of tokens is rejected
unfoldable pub record_tokens : String → ℤ → ℕ → Exec TokenRpmWindow (Unit {0})
unfolding record_sample
record_tokens provider (negsuc n) now w = (err value_error, w)
record_tokens provider (pos prompt_tokens) now w = (
  ok tt,
  record w { entries = record_sample w.window_seconds provider prompt_tokens now w.entries },
)

unfoldable pub provider_tokens : String → ℕ → TokenRpmWindow → ℕ × TokenRpmWindow
unfolding read_total
provider_tokens provider now w =
    let (tokens, entries) = read_total w.window_seconds provider now w.entries in
    (tokens, record w { entries = entries })

unfoldable pub would_exceed : String → ℕ → ℕ → ℕ → TokenRpmWindow → Bool × TokenRpmWindow
unfolding provider_tokens
would_exceed provider prompt_tokens ceiling now w =
    let (tokens, w') = provider_tokens provider now w in (ltb ceiling (tokens + prompt_tokens), w')
