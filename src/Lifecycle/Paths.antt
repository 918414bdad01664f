-- ===== src/Lifecycle/Paths.antt =====
-- What a whole request can go through: sequences of calls of `transition`.
use nexus_llm_router.Prelude.{
  ℕ, ◌+◌, ◌≤◌, ◌≡◌, ◌⊎◌, refl, Bool, true, false, ◌||◌, List, [], ◌∷◌, Result, ok, err,
  state_transition, arith,
}
use nexus_llm_router.Lifecycle.{
  RequestState, received, classified, routed, dispatched, responded, fallback, failed,
  initial_state, transition,
}

-- A sequence of calls; an exception ends it.
continue :
    Result (Unit {0}) → RequestState → (RequestState → Result RequestState) → Result RequestState
continue (ok _) s rest = rest s
continue (err e) s rest = err e

unfoldable pub follow : List RequestState → RequestState → Result RequestState
unfolding continue transition
follow [] s = ok s
follow (t ∷ path) s = let (r, s') = transition t s in continue r s' (follow path)

is_dispatched : RequestState → Bool
is_dispatched dispatched = true
is_dispatched _ = false

pub visits_dispatched : List RequestState → Bool
unfolding is_dispatched
visits_dispatched [] = false
visits_dispatched (t ∷ path) = is_dispatched t || visits_dispatched path

-- The states that stand behind a dispatch.
abbrev after_dispatch : RequestState → Bool
after_dispatch dispatched = true
after_dispatch fallback = true
after_dispatch responded = true
after_dispatch _ = false

follow-dispatched :
    (path : List RequestState) (s : RequestState)
    → follow path s ≡ ok responded
    → (after_dispatch s || visits_dispatched path) ≡ true
unfolding follow visits_dispatched
follow-dispatched [] received h = cc
follow-dispatched [] s h = ground arith
follow-dispatched (received ∷ path) s h = ground arith
follow-dispatched (t ∷ path) s h = ground (arith, follow-dispatched path t)

-- A request that is answered was dispatched to a provider: every sequence of calls of `transition`
-- that leads from the initial state to `responded` without an exception goes through `dispatched`.
pub follow-visits_dispatched :
    (path : List RequestState)
    → follow path initial_state ≡ ok responded
    → visits_dispatched path ≡ true
follow-visits_dispatched path h = follow-dispatched path received h

abbrev is_final : RequestState → Bool
is_final responded = true
is_final failed = true
is_final _ = false

-- `responded` and `failed` are final: from there every call raises, and the state stays.
pub transition_final :
    (s t : RequestState) → is_final s ≡ true → transition t s ≡ (err state_transition, s)
unfolding transition
transition_final responded t h = refl
transition_final failed t h = refl
transition_final received t h = cc
transition_final _ t h = cc

-- A request can fail from every state that is not final: `transition` to `failed` does not raise there.
pub transition-failed :
    (s : RequestState) → is_final s ≡ false → transition failed s ≡ (ok tt, failed)
unfolding transition
transition-failed received h = refl
transition-failed responded h = cc
transition-failed failed h = cc
transition-failed _ h = refl

-- How far a request has come.
abbrev pub stage : RequestState → ℕ
stage received = 0
stage classified = 1
stage routed = 2
stage dispatched = 3
stage fallback = 3
stage responded = 4
stage failed = 4

-- A call that does not raise never moves a request back, and moves it by one stage at most unless
-- it fails it.
pub transition-stage :
    (s t : RequestState)
    → (transition t s).0 ≡ ok tt
    → (stage s ≤ stage t) × ((t ≡ failed) ⊎ (stage t ≤ stage s + 1))
unfolding transition
transition-stage received t h = ground arith
transition-stage classified t h = ground arith
transition-stage _ t h = ground arith
