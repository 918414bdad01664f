-- ===== src/Breaker/Circuit.antt =====
-- The registry as one circuit for each provider, by what was called for that provider alone.
use nexus_llm_router.Prelude.{
  ℕ, ◌+◌, ◌≡◌, ◌↔◌, refl, String, Bool, true, false, none, some, List, [], ◌∷◌, ok, ltb,
  if◌then◌else◌, arith, eq_iff, str_eq, Option-cases, inl, inr,
}
use nexus_llm_router.Prelude.Dict
use nexus_llm_router.Prelude.Dict.{
  get-put, get_or-put, setdefault-get_or, get_or-setdefault, get-eq-none→get_or, get-eq-some→get_or,
}
use nexus_llm_router.Breaker.{
  CircuitState, CircuitBreakerRegistry, closed, assert_available, is_available, record_success,
  record_failure, count_failure,
}

-- The circuit of a provider; one that was never called is closed.
abbrev pub circuit : CircuitBreakerRegistry → String → CircuitState
circuit r p = Dict.get_or r.states p closed

-- Whether calls are blocked at a time.
abbrev pub blocks : ℕ → ℕ → CircuitState → Bool
blocks window now c = elim c.opened_at [ none ↦ false | some t ↦ ltb now (t + window) ]

pub is_available-blocks :
    (r : CircuitBreakerRegistry) (p : String) (now : ℕ)
    → (is_available r p now ≡ true) ↔ (blocks r.recovery_window now (circuit r p) ≡ false)
unfolding is_available
is_available-blocks r p now = elim (Option-cases (Dict.get r.states p)) [
  | inl e ↦ ground (arith, e, get-eq-none→get_or r.states p closed e)
  | inr (c, e) ↦ ground (arith, e, get-eq-some→get_or r.states p c closed e)
]

-- The guard of a dispatch and the read that the strategies use agree: `assert_available` raises
-- exactly when `is_available` is false at that time.
pub assert_available-is_available :
    (r : CircuitBreakerRegistry) (p : String) (now : ℕ)
    → ((assert_available p now r).0 ≡ ok tt) ↔ (is_available r p now ≡ true)
unfolding assert_available
assert_available-is_available r p now =
    ground (arith, is_available-blocks r p now, setdefault-get_or r.states p closed)

-- A call about a provider, with the reading of the clock that it takes.
pub data Call : Type 0 where
  asserted : ℕ → Call
  succeeded : Call
  failed : ℕ → Call

unfoldable pub apply : String × Call → CircuitBreakerRegistry → CircuitBreakerRegistry
apply (p, asserted now) r = (assert_available p now r).1
apply (p, succeeded) r = record_success p r
apply (p, failed now) r = record_failure p now r

unfoldable pub run : List (String × Call) → CircuitBreakerRegistry → CircuitBreakerRegistry
run [] r = r
run (e ∷ es) r = run es (apply e r)

-- One circuit of its own: closed, or open since a time.
abbrev retry : ℕ → ℕ → CircuitState → CircuitState
retry window now c = elim c.opened_at [
  | none ↦ c
  | some t ↦ if ltb now (t + window) then c else closed
]

unfoldable pub step : ℕ → ℕ → Call → CircuitState → CircuitState
step threshold window (asserted now) c = retry window now c
step threshold window succeeded c = closed
step threshold window (failed now) c = count_failure threshold now c

-- The calls about one provider, in their order.
unfoldable pub calls_of : String → List (String × Call) → List Call
calls_of p [] = []
calls_of p ((q, c) ∷ es) = let rest = calls_of p es in if str_eq q p then c ∷ rest else rest

unfoldable pub steps : ℕ → ℕ → List Call → CircuitState → CircuitState
steps threshold window [] c = c
steps threshold window (e ∷ es) c = steps threshold window es (step threshold window e c)

apply_settings :
    (e : String × Call) (r : CircuitBreakerRegistry)
    → ((apply e r).failure_threshold ≡ r.failure_threshold)
      × ((apply e r).recovery_window ≡ r.recovery_window)
unfolding apply assert_available record_success record_failure
apply_settings (p, asserted now) r = ground arith
apply_settings (p, succeeded) r = (refl, refl)
apply_settings (p, failed now) r = (refl, refl)

apply-circuit :
    (q p : String) (e : Call) (r : CircuitBreakerRegistry)
    → circuit (apply (q, e) r) p ≡ (
        if str_eq q p
        then step r.failure_threshold r.recovery_window e (circuit r p)
        else circuit r p)
unfolding apply step assert_available record_success record_failure
apply-circuit q p (asserted now) r = ground (
  arith,
  eq_iff q p,
  setdefault-get_or r.states q closed,
  get_or-setdefault r.states q closed p,
  get_or-put (Dict.setdefault r.states q closed).1 q p closed closed,
)
apply-circuit q p succeeded r = get_or-put r.states q p closed closed
apply-circuit q p (failed now) r = ground (
  arith,
  eq_iff q p,
  setdefault-get_or r.states q closed,
  get_or-setdefault r.states q closed p,
  get_or-put (Dict.setdefault r.states q closed).1 q p
      (count_failure r.failure_threshold now (circuit r q)) closed,
)

pub run_settings :
    (es : List (String × Call)) (r : CircuitBreakerRegistry)
    → ((run es r).failure_threshold ≡ r.failure_threshold)
      × ((run es r).recovery_window ≡ r.recovery_window)
unfolding run
run_settings [] r = (refl, refl)
run_settings (e ∷ es) r = ground (arith, run_settings es (apply e r), apply_settings e r)

-- However the calls of the providers interleave, the circuit of each provider is what its own
-- calls, in their order, make of it: no provider's failures open or close another's circuit.
pub run-circuit :
    (es : List (String × Call)) (r : CircuitBreakerRegistry) (p : String)
    → circuit (run es r) p
      ≡ steps r.failure_threshold r.recovery_window (calls_of p es) (circuit r p)
unfolding run calls_of steps
run-circuit [] r p = refl
run-circuit ((q, e) ∷ es) r p =
    ground
      (arith, run-circuit es (apply (q, e) r) p, apply-circuit q p e r, apply_settings (q, e) r)
