-- ===== src/Breaker.antt =====
-- safety/circuit_breaker.py: `CircuitBreakerRegistry`. Times are readings of the monotonic clock in
-- ticks, and the window is in ticks too; `now - opened_at < window` is written without the
-- subtraction, which on ℕ stops at 0.
pub mod Circuit
pub mod Threshold
use nexus_llm_router.Prelude.{
  ℕ, ◌+◌, String, Bool, true, false, Option, none, some, Exec, ok, err, circuit_open, ltb, leb,
  if◌then◌else◌, [],
}
use nexus_llm_router.Prelude.Dict
use nexus_llm_router.Prelude.Dict.{Dict}

pub record CircuitState : Type 0 where
  pub consecutive_failures : ℕ
  pub opened_at : Option ℕ

abbrev pub closed : CircuitState
closed = record { consecutive_failures = 0; opened_at = none }

pub record CircuitBreakerRegistry : Type 0 where
  pub failure_threshold : ℕ
  pub recovery_window : ℕ
  pub states : Dict CircuitState

abbrev pub init : ℕ → ℕ → CircuitBreakerRegistry
init threshold window = record {
  failure_threshold = threshold;
  recovery_window = window;
  states = [];
}

unfoldable pub assert_available : String → ℕ → Exec CircuitBreakerRegistry (Unit {0})
assert_available provider now r =
    let (state, states) = Dict.setdefault r.states provider closed in
    elim state.opened_at [
      | none ↦ (ok tt, record r { states = states })
      | some opened_at ↦
          if ltb now (opened_at + r.recovery_window)
          then (err circuit_open, record r { states = states })
          else (ok tt, record r { states = Dict.put states provider closed })
    ]

unfoldable pub is_available : CircuitBreakerRegistry → String → ℕ → Bool
is_available r provider now = elim (Dict.get r.states provider) [
  | none ↦ true
  | some state ↦ elim state.opened_at [
    | none ↦ true
    | some opened_at ↦ leb (opened_at + r.recovery_window) now
  ]
]

unfoldable pub is_half_open : CircuitBreakerRegistry → String → ℕ → Bool
is_half_open r provider now = elim (Dict.get r.states provider) [
  | none ↦ false
  | some state ↦ elim state.opened_at [
    | none ↦ false
    | some opened_at ↦ leb (opened_at + r.recovery_window) now
  ]
]

unfoldable pub record_success : String → CircuitBreakerRegistry → CircuitBreakerRegistry
record_success provider r = record r { states = Dict.put r.states provider closed }

-- The state after one more failure.
unfoldable pub count_failure : ℕ → ℕ → CircuitState → CircuitState
count_failure threshold now state =
    let failures = state.consecutive_failures + 1 in
    record {
      consecutive_failures = failures;
      opened_at = if leb threshold failures then some now else state.opened_at;
    }

unfoldable pub record_failure : String → ℕ → CircuitBreakerRegistry → CircuitBreakerRegistry
unfolding count_failure
record_failure provider now r =
    let (state, states) = Dict.setdefault r.states provider closed in
    record r { states = Dict.put states provider (count_failure r.failure_threshold now state) }
