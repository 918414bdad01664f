-- ===== src/Lifecycle.antt =====
-- router/state.py: the lifecycle of a request. `transition` of `RoutingStateMachine` mutates
-- `current_state`, which is the state of the action.
pub mod Paths
use nexus_llm_router.Prelude.{Bool, true, false, Exec, ok, err, state_transition, if◌then◌else◌}

pub data RequestState : Type 0 where
  received classified routed dispatched responded fallback failed : RequestState

-- `next_state in _allowed_transitions[current_state]`
unfoldable pub allowed : RequestState → RequestState → Bool
allowed received classified = true
allowed received failed = true
allowed classified routed = true
allowed classified failed = true
allowed routed dispatched = true
allowed routed failed = true
allowed dispatched responded = true
allowed dispatched fallback = true
allowed dispatched failed = true
allowed fallback dispatched = true
allowed fallback responded = true
allowed fallback failed = true
allowed _ _ = false

-- `RoutingStateMachine()`
abbrev pub initial_state : RequestState
initial_state = received

unfoldable pub transition : RequestState → Exec RequestState (Unit {0})
unfolding allowed
transition next_state current =
    if allowed current next_state then (ok tt, next_state) else (err state_transition, current)
