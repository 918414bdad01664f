-- ===== src/Tests/Safety.antt =====
-- The guards of safety/, the request states and the scoreboard at work.
use nexus_llm_router.Prelude.{
  ◌+◌, ◌≤◌, ◌≡◌, ◌⊎◌, ◌↔◌, refl, String, true, some, List, [], ◌∷◌, ok, err, arith, circuit_open,
}
use nexus_llm_router.Prelude.Dict
use nexus_llm_router.Lifecycle.{
  classified, routed, dispatched, responded, fallback, failed, transition,
}
use nexus_llm_router.Lifecycle.Paths.{
  follow, follow-visits_dispatched, visits_dispatched, transition-stage, stage,
}
use nexus_llm_router.Breaker
use nexus_llm_router.Breaker.{is_available, assert_available, closed}
use nexus_llm_router.Breaker.Circuit
use nexus_llm_router.Breaker.Circuit.{
  circuit, run-circuit, steps, calls_of, assert_available-is_available,
}
use nexus_llm_router.Breaker.Threshold.{
  streak, assert_available_below_threshold, assert_available_opened, assert_available_recovered,
}
use nexus_llm_router.Limiter
use nexus_llm_router.Limiter.Conformance
use nexus_llm_router.Limiter.Conformance.{
  run-granted-le, assert_allowed_first, assert_allowed_other,
}
use nexus_llm_router.Budget
use nexus_llm_router.Budget.Caps.{Charge, IsWithin, serve, serve-IsWithin}
use nexus_llm_router.Budget.Overlaps.{
  Traffic, flights, passed, charged, Reached, fresh, next, spent-overlapping,
}
use nexus_llm_router.Scoreboard
use nexus_llm_router.Scoreboard.{ProviderFallbackScoreboard, rank}
use nexus_llm_router.Scoreboard.Ranking.{IsRanked, rank-IsRanked}

follow-visits_dispatched_example :
    visits_dispatched (classified ∷ routed ∷ dispatched ∷ fallback ∷ dispatched ∷ responded ∷ [])
    ≡ true
unfolding follow transition
follow-visits_dispatched_example =
    follow-visits_dispatched
      (classified ∷ routed ∷ dispatched ∷ fallback ∷ dispatched ∷ responded ∷ []) refl

transition-stage_example :
    (stage fallback ≤ stage responded)
    × ((responded ≡ failed) ⊎ (stage responded ≤ stage fallback + 1))
unfolding transition
transition-stage_example = transition-stage fallback responded refl

-- Two failures of one provider with a success of another in between.
abbrev calls : List (String × Circuit.Call)
calls =
    ("openai", Circuit.failed 10)
    ∷ ("anthropic", Circuit.succeeded)
    ∷ ("openai", Circuit.failed 12)
    ∷ []

run-circuit_example :
    circuit (Circuit.run calls (Breaker.init 2 60)) "openai"
    ≡ steps 2 60 (calls_of "openai" calls) (circuit (Breaker.init 2 60) "openai")
run-circuit_example = run-circuit calls (Breaker.init 2 60) "openai"

-- What a request does: a guard, and then the outcome of the call.
abbrev guarded_calls : List (String × Circuit.Call)
guarded_calls =
    ("openai", Circuit.asserted 9)
    ∷ ("openai", Circuit.failed 10)
    ∷ ("anthropic", Circuit.succeeded)
    ∷ ("openai", Circuit.asserted 11)
    ∷ ("openai", Circuit.failed 12)
    ∷ ("openai", Circuit.asserted 20)
    ∷ []

assert_available_opened_example :
    (assert_available "openai" 71 (Circuit.run guarded_calls (Breaker.init 2 60))).0
    ≡ err circuit_open
unfolding calls_of streak
assert_available_opened_example =
    assert_available_opened 2 60 71 "openai" guarded_calls
      (Circuit.asserted 9 ∷ Circuit.failed 10 ∷ Circuit.asserted 11 ∷ []) (Circuit.asserted 20 ∷ [])
      12 refl refl (omega arith, tt) (omega arith)

assert_available_below_threshold_example :
    (assert_available "openai" 12 (Circuit.run guarded_calls (Breaker.init 3 60))).0 ≡ ok tt
unfolding calls_of streak
assert_available_below_threshold_example =
    assert_available_below_threshold 3 60 12 "openai" guarded_calls (omega arith)

assert_available_recovered_example :
    (assert_available "openai" 72 (Circuit.run calls (Breaker.init 2 60))).0 ≡ ok tt
unfolding calls_of steps Circuit.step Breaker.count_failure
assert_available_recovered_example =
    assert_available_recovered 2 60 72 "openai" calls (Circuit.failed 10 ∷ []) 12 refl (λ s h. cc)
      (omega arith)

assert_available-is_available_example :
    ((assert_available "openai" 5 (Breaker.init 2 60)).0 ≡ ok tt)
    ↔ (is_available (Breaker.init 2 60) "openai" 5 ≡ true)
assert_available-is_available_example = assert_available-is_available (Breaker.init 2 60) "openai" 5

-- Three calls for one key and one for another.
abbrev requests : List Conformance.Call
requests =
    record { key = "a"; tokens = 1; now = 0 }
    ∷ record { key = "b"; tokens = 1; now = 1 }
    ∷ record { key = "a"; tokens = 1; now = 3 }
    ∷ record { key = "a"; tokens = 1; now = 4 }
    ∷ []

run-granted-le_example : (Conformance.run "a" requests (Limiter.init 2 1 10)).0 ≤ 24
run-granted-le_example =
    run-granted-le "a" 0 requests (Limiter.init 2 1 10)
      (omega arith, (omega arith, (omega arith, (omega arith, tt))))

-- The second request is rejected, the third is not.
abbrev charges : List Charge
charges =
    record { subject = "ada"; estimate = 60; cost = 50 }
    ∷ record { subject = "ada"; estimate = 60; cost = 60 }
    ∷ record { subject = "bob"; estimate = 60; cost = 60 }
    ∷ []

serve-IsWithin_example : IsWithin (serve charges (Budget.init 100 1))
serve-IsWithin_example =
    serve-IsWithin 100 1 charges (omega arith, (omega arith, (omega arith, tt)))

-- Two requests of a subject are both checked before either is charged.
abbrev both_checked : Traffic
both_checked = record {
  guardrail = Budget.init 100 1;
  in_flight =
      record { subject = "ada"; estimate = 70 } ∷ record { subject = "ada"; estimate = 60 } ∷ [];
}

abbrev both_charged : Traffic
both_charged = record {
  guardrail = Budget.record_spend "ada" 70 (Budget.record_spend "ada" 60 (Budget.init 100 1));
  in_flight = [];
}

both_charged-Reached : Reached 1 70 100 1 both_charged
unfolding Budget.assert_can_spend Budget.spent Dict.get_or flights
both_charged-Reached =
    next _ _
      (next _ _
        (next _ both_checked
          (next _ _ fresh (
            passed (record { guardrail = Budget.init 100 1; in_flight = [] }) "ada" 60 (omega arith)
              (omega arith) refl))
          (passed
            (record {
              guardrail = Budget.init 100 1;
              in_flight = record { subject = "ada"; estimate = 60 } ∷ [];
            })
            "ada" 70 (omega arith) (omega arith) refl))
        (charged both_checked (record { subject = "ada"; estimate = 70 } ∷ []) []
          (record { subject = "ada"; estimate = 60 }) 60 refl (omega arith)))
      (charged
        (record {
          guardrail = Budget.record_spend "ada" 60 (Budget.init 100 1);
          in_flight = record { subject = "ada"; estimate = 70 } ∷ [];
        })
        [] [] (record { subject = "ada"; estimate = 70 }) 70 refl (omega arith))

spent-overlapping_example : Budget.spent both_charged.guardrail "ada" ≤ 171
spent-overlapping_example = spent-overlapping 1 70 100 1 both_charged "ada" both_charged-Reached

abbrev board : ProviderFallbackScoreboard
board = record {
  latency_ref = 1000;
  stats =
      ("openai", record { successes = 1; attempts = 2; latency_sum = 900 })
      ∷ ("anthropic", record { successes = 2; attempts = 2; latency_sum = 700 })
      ∷ [];
}

rank-IsRanked_example : IsRanked board (rank board (some ("openai" ∷ "mistral" ∷ "anthropic" ∷ [])))
rank-IsRanked_example = rank-IsRanked board (some ("openai" ∷ "mistral" ∷ "anthropic" ∷ []))

-- A run of the ranking: the better provider first, one without observations last.
rank_run :
    rank board (some ("openai" ∷ "mistral" ∷ "anthropic" ∷ []))
    ≡ "anthropic" ∷ "openai" ∷ "mistral" ∷ []
unfolding rank Scoreboard.rank_all Scoreboard.place Scoreboard.better Scoreboard.rank_key
    Scoreboard.score_of Dict.get
rank_run = refl
