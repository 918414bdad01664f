-- ===== src/Breaker/Threshold.antt =====
-- When a circuit opens, when it lets calls through again, and what resets it.
use nexus_llm_router.Prelude.{
  ℕ, ◌+◌, ◌≤◌, ◌<◌, ◌≡◌, refl, String, false, true, none, some, List, [], ◌∷◌, ◌++◌, ok, err,
  circuit_open, if◌then◌else◌, arith,
}
use nexus_llm_router.Prelude.Dict
use nexus_llm_router.Prelude.Dict.{setdefault-get_or}
use nexus_llm_router.Breaker.{
  CircuitState, CircuitBreakerRegistry, closed, init, assert_available, count_failure,
}
use nexus_llm_router.Breaker.Circuit.{
  circuit, blocks, Call, asserted, failed, succeeded, run, run_settings, step, steps, calls_of,
  run-circuit,
}

-- The failures since the last success, after `n` that came before the list.
unfoldable pub streak : ℕ → List Call → ℕ
streak n [] = n
streak n (asserted t ∷ cs) = streak n cs
streak n (succeeded ∷ cs) = streak 0 cs
streak n (failed t ∷ cs) = streak (n + 1) cs

steps-append :
    (threshold window : ℕ) (xs ys : List Call) (c : CircuitState)
    → steps threshold window (xs ++ ys) c ≡ steps threshold window ys (steps threshold window xs c)
unfolding steps
steps-append threshold window [] ys c = refl
steps-append threshold window (x ∷ xs) ys c =
    steps-append threshold window xs ys (step threshold window x c)

-- A circuit that has seen `n` failures since the last success: below the threshold it is closed, and
-- has counted them all.
record IsCounting (threshold n : ℕ) (c : CircuitState) : Type 0 where
  pub counted : n < threshold → c.consecutive_failures ≡ n
  pub unopened : n < threshold → c.opened_at ≡ none

step-IsCounting :
    (threshold window n : ℕ) (e : Call) (c : CircuitState)
    → IsCounting threshold n c
    → IsCounting threshold (streak n (e ∷ [])) (step threshold window e c)
unfolding step streak count_failure
step-IsCounting threshold window n (asserted t) c h = record {
  counted = λ below. ground (arith, h.counted below, h.unopened below);
  unopened = λ below. ground (arith, h.unopened below);
}
step-IsCounting threshold window n succeeded c h = record {
  counted = λ below. refl;
  unopened = λ below. refl;
}
step-IsCounting threshold window n (failed t) c h = record {
  counted = λ below. omega (arith, h.counted (omega arith));
  unopened = λ below. ground (arith, h.counted (omega arith), h.unopened (omega arith));
}

steps-IsCounting :
    (threshold window n : ℕ) (cs : List Call) (c : CircuitState)
    → IsCounting threshold n c
    → IsCounting threshold (streak n cs) (steps threshold window cs c)
unfolding steps streak
steps-IsCounting threshold window n [] c h = h
steps-IsCounting threshold window n (asserted t ∷ cs) c h =
    steps-IsCounting threshold window n cs _ (step-IsCounting threshold window n (asserted t) c h)
steps-IsCounting threshold window n (succeeded ∷ cs) c h =
    steps-IsCounting threshold window 0 cs _ (step-IsCounting threshold window n succeeded c h)
steps-IsCounting threshold window n (failed t ∷ cs) c h =
    steps-IsCounting threshold window (n + 1) cs _
      (step-IsCounting threshold window n (failed t) c h)

closed-IsCounting : (threshold : ℕ) → IsCounting threshold 0 closed
closed-IsCounting threshold = record { counted = λ below. refl; unopened = λ below. refl }

-- Calls while a circuit is open: guards before the window from a time has passed, and further failures,
-- none of them earlier.
abbrev pub Meanwhile : ℕ → ℕ → List Call → Type 0
Meanwhile window t [] = Unit {0}
Meanwhile window t (asserted s ∷ cs) = (s < t + window) × Meanwhile window t cs
Meanwhile window t (succeeded ∷ cs) = false ≡ true
Meanwhile window t (failed s ∷ cs) = (t ≤ s) × Meanwhile window t cs

steps_open :
    (threshold window now t u : ℕ) (cs : List Call) (c : CircuitState)
    → Meanwhile window t cs
    → threshold ≤ c.consecutive_failures
    → c.opened_at ≡ some u
    → t ≤ u
    → now < t + window
    → blocks window now (steps threshold window cs c) ≡ true
unfolding steps step count_failure
steps_open threshold window now t u [] c m h o later soon = ground (arith, o)
steps_open threshold window now t u (asserted s ∷ cs) c m h o later soon =
    let e : step threshold window (asserted s) c ≡ c = ground (arith, o, m.0) in
    rw e (steps_open threshold window now t u cs c m.1 h o later soon)
steps_open threshold window now t u (succeeded ∷ cs) c m h o later soon = cc
steps_open threshold window now t u (failed s ∷ cs) c m h o later soon =
    steps_open threshold window now t s cs (step threshold window (failed s) c) m.1 (omega arith)
      (ground arith) m.0 soon

assert_available-blocks :
    (r : CircuitBreakerRegistry) (p : String) (now : ℕ)
    → (assert_available p now r).0
      ≡ (if blocks r.recovery_window now (circuit r p) then err circuit_open else ok tt)
unfolding assert_available
assert_available-blocks r p now = ground (arith, setdefault-get_or r.states p closed)

steps-init :
    (threshold window : ℕ) (p : String) (es : List (String × Call))
    → circuit (run es (init threshold window)) p ≡ steps threshold window (calls_of p es) closed
unfolding Dict.get_or
steps-init threshold window p es = run-circuit es (init threshold window) p

-- What `assert_available` answers after any calls is decided by the circuit of the provider.
assert_available-run :
    (threshold window now : ℕ) (p : String) (es : List (String × Call))
    → (assert_available p now (run es (init threshold window))).0 ≡ (
        if blocks window now (steps threshold window (calls_of p es) closed)
        then err circuit_open
        else ok tt)
assert_available-run threshold window now p es = ground (
  arith,
  assert_available-blocks (run es (init threshold window)) p now,
  steps-init threshold window p es,
  run_settings es (init threshold window),
)

module _ (threshold window now : ℕ) (p : String) (es : List (String × Call)) where
  -- Below the threshold nothing opens: if a provider has failed fewer times since its last success than
  -- the threshold, its calls are let through at every time, whatever guards it passed meanwhile and
  -- whatever happens to other providers.
  pub assert_available_below_threshold :
      streak 0 (calls_of p es) < threshold
      → (assert_available p now (run es (init threshold window))).0 ≡ ok tt
  assert_available_below_threshold h =
      let count =
        steps-IsCounting threshold window 0 (calls_of p es) closed (closed-IsCounting threshold) in
      ground (arith, assert_available-run threshold window now p es, count.unopened h)

  -- Reaching the threshold opens the circuit: if a failure at time `t` is the one that makes the failures
  -- since the last success as many as the threshold, whatever guards stood between them, then until the
  -- window from `t` has passed the provider's calls are rejected, whatever happens to other providers.
  -- After `t` the provider's guards run before the window has passed, its further failures are no
  -- earlier than `t`, and it does not succeed.
  pub assert_available_opened :
      (cs ds : List Call) (t : ℕ)
      → calls_of p es ≡ cs ++ failed t ∷ ds
      → streak 0 cs + 1 ≡ threshold
      → Meanwhile window t ds
      → now < t + window
      → (assert_available p now (run es (init threshold window))).0 ≡ err circuit_open
  unfolding steps step count_failure
  assert_available_opened cs ds t calls reached meanwhile soon =
      let c = steps threshold window cs closed in
      let count = steps-IsCounting threshold window 0 cs closed (closed-IsCounting threshold) in
      let n : c.consecutive_failures ≡ streak 0 cs = count.counted (omega arith) in
      ground (
        arith,
        assert_available-run threshold window now p es,
        steps-append threshold window cs (failed t ∷ ds) closed,
        steps_open threshold window now t t ds (step threshold window (failed t) c) meanwhile
            (omega arith) (ground arith) (omega arith) soon,
      )

  -- Once the window has passed since a failure that is a provider's last call, its calls are let through
  -- again, whatever was called before, if the circuit was not open since a time later than that failure.
  pub assert_available_recovered :
      (cs : List Call) (t : ℕ)
      → calls_of p es ≡ cs ++ failed t ∷ []
      → ((s : ℕ) → (steps threshold window cs closed).opened_at ≡ some s → s ≤ t)
      → t + window ≤ now
      → (assert_available p now (run es (init threshold window))).0 ≡ ok tt
  unfolding steps step count_failure
  assert_available_recovered cs t calls ordered late = grind (
    arith,
    assert_available-run threshold window now p es,
    steps-append threshold window cs (failed t ∷ []) closed,
  )

  -- A success closes the circuit: if it is the last call about a provider, the provider's next call is let
  -- through at every time, whatever was called before.
  pub assert_available_after_success :
      (cs : List Call)
      → calls_of p es ≡ cs ++ succeeded ∷ []
      → (assert_available p now (run es (init threshold window))).0 ≡ ok tt
  unfolding steps step
  assert_available_after_success cs calls = ground (
    arith,
    assert_available-run threshold window now p es,
    steps-append threshold window cs (succeeded ∷ []) closed,
  )
