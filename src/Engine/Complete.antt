-- ===== src/Engine/Complete.antt =====
-- `complete` of router/engine.py: the attempts in their order, and the request around them. The
-- metrics and the log lines are not modelled.
use nexus_llm_router.Prelude.{
  ℕ, suc, ◌-◌, String, Bool, true, false, Option, none, some, Error, Result, Exec, ok, err,
  key_error, routing_failed, List, [], ◌∷◌,
}
use nexus_llm_router.Prelude.Int.{pos}
use nexus_llm_router.Prelude.Action.{pure, raise, gets, or_raise, lift, catch, zoom, ◌>>=◌, ◌>>◌}
use nexus_llm_router.Prelude.Dict
use nexus_llm_router.Lifecycle.{RequestState, initial_state, classified, routed, fallback, failed}
use nexus_llm_router.Schemas.{
  RouterRequest, TaskSignals, ModelCandidate, RoutingDecision, RouterResponse, StrategyName,
}
use nexus_llm_router.Limiter
use nexus_llm_router.Engine.State.{NexusRouter, Setup, World, Run, admitted, begun, failed_at}
use nexus_llm_router.Engine.Order.{order_attempts}
use nexus_llm_router.Engine.Request.{move, in_router, change, guardrails}
use nexus_llm_router.Engine.Respond.{score_outcome}
use nexus_llm_router.Engine.Attempt.{try_attempt, mark_failure}

abbrev pub is_last : List String → Bool
is_last [] = true
is_last (m ∷ ms) = false

-- `if state_machine.current_state is DISPATCHED: state_machine.transition(FALLBACK)`
unfoldable pub fall_back_from : RequestState → Exec Run (Unit {0})
fall_back_from RequestState.dispatched = move fallback
fall_back_from _ = pure tt

abbrev pub fall_back : Exec Run (Unit {0})
fall_back = do state ← gets (λ s. s.current_state); fall_back_from state

-- The end of a skipped attempt.
unfoldable pub after_skip : Bool → Exec Run (Option RouterResponse)
after_skip true = do move failed; pure none
after_skip false = pure none

-- The end of the handler of a failed attempt.
unfoldable pub after_failure : Bool → Exec Run (Option RouterResponse)
after_failure true = do move failed; pure none
after_failure false = do fall_back; pure none

-- A request's own data during its attempts.
pub record Job : Type 0 where
  pub request : RouterRequest
  pub signals : TaskSignals
  pub strategy_name : StrategyName
  pub decision : RoutingDecision

module _ (d : Setup) (w : World) (job : Job) where
  -- `except Exception`
  unfoldable pub handle_failure : ℕ → Bool → String → Error → Exec Run (Option RouterResponse)
  handle_failure i last provider e = do
    score_outcome provider false (pos (w.clock i failed_at - w.clock i begun))
    change (mark_failure w i job.request provider e)
    after_failure last

  unfoldable pub answer_or_handle :
      ℕ → Bool → String → Result RouterResponse → Exec Run (Option RouterResponse)
  answer_or_handle i last provider (ok response) = pure (some response)
  answer_or_handle i last provider (err e) = handle_failure i last provider e

  -- An attempt whose guardrails passed.
  unfoldable pub guarded_attempt :
      ℕ → Bool → String → ModelCandidate → Result (Unit {0}) → Exec Run (Option RouterResponse)
  guarded_attempt i last model_name candidate (err e) = after_skip last
  guarded_attempt i last model_name candidate (ok _) =
      catch
        (try_attempt d w i job.request job.signals job.strategy_name job.decision candidate
          model_name)
        (answer_or_handle i last candidate.provider)

  -- One round of the loop: a response ends it, `none` goes on, and an exception leaves `complete`.
  unfoldable pub one_attempt : ℕ → Bool → String → Exec Run (Option RouterResponse)
  one_attempt i last model_name = do
    candidate ← or_raise (Dict.get d.model_catalog model_name) key_error
    catch (in_router (guardrails w i job.request job.signals candidate))
        (guarded_attempt i last model_name candidate)

  unfoldable pub finish_or_go_on :
      Option RouterResponse → Exec Run RouterResponse → Exec Run RouterResponse
  finish_or_go_on (some response) rest = pure response
  finish_or_go_on none rest = rest

  -- `for attempt_index, model_name in enumerate(attempts)`, and the `raise` behind the loop
  unfoldable pub attempt_all : ℕ → List String → Exec Run RouterResponse
  attempt_all i [] = raise routing_failed
  attempt_all i (m ∷ ms) = do
    answer ← one_attempt i (is_last ms) m
    finish_or_go_on answer (attempt_all (suc i) ms)

-- `request.strategy or self._settings.default_strategy`
abbrev pub effective_strategy : Setup → RouterRequest → StrategyName
effective_strategy d request = elim request.strategy [
  | none ↦ d.default_strategy
  | some name ↦ name
]

-- A request that the rate limiter let in
unfoldable pub admitted_run : Setup → World → RouterRequest → Exec Run RouterResponse
admitted_run d w request = do
  let strategy_name = effective_strategy d request
  let signals = d.analyze request
  move classified
  strategy ← or_raise (d.strategies strategy_name) key_error
  decision ← in_router (strategy.choose request signals)
  move routed
  scoreboard ← gets (λ s. s.router.scoreboard)
  attempts ←
      lift (order_attempts scoreboard d.model_catalog decision.chosen_model decision.fallback_chain)
  attempt_all d w
      (record {
        request = request;
        signals = signals;
        strategy_name = strategy.strategy_name;
        decision = decision;
      })
      0 attempts

unfoldable pub complete_run : Setup → World → RouterRequest → Exec Run RouterResponse
complete_run d w request = do
  in_router (
      zoom (λ r. r.rate_limiter) (λ l r. record r { rate_limiter = l })
        (Limiter.assert_allowed request.api_key_id 1 (w.clock 0 admitted)))
  admitted_run d w request

-- The answer to the caller, the router that the request leaves, and where its state machine ended.
unfoldable pub complete : Setup → World → RouterRequest → NexusRouter → Result RouterResponse × Run
unfolding complete_run
complete d w request r =
    complete_run d w request (record { router = r; current_state = initial_state })
