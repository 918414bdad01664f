-- ===== src/Engine/Stream.antt =====
-- `complete_stream` of router/engine.py. The chunks that an adapter streams are given by the world, and
-- the caller reads them all. A caller that stops early is not modelled.
pub mod Triple
pub mod Voice
pub mod Silence
pub mod Splice
pub mod Ended
pub mod Rounds
pub mod Outcomes
use nexus_llm_router.Prelude.{
  ℕ, suc, ◌-◌, ◌/◌, max, String, Bool, true, false, Option, none, some, Error, Result, Exec, ok,
  err, Failure, key_error, routing_failed, provider_error, List, [], ◌∷◌, ◌++◌, not, ◌||◌, str_eq,
}
use nexus_llm_router.Prelude.Int.{pos}
use nexus_llm_router.Prelude.Action.{
  pure, raise, gets, or_raise, lift, catch, zoom, modify, raise_unless, ◌>>=◌, ◌>>◌,
}
use Prim.Native.String
use nexus_llm_router.Prelude.Dict
use nexus_llm_router.Lifecycle.{RequestState, initial_state, classified, routed, failed}
use nexus_llm_router.Schemas.{
  ChatMessage, RouterRequest, TaskSignals, ModelCandidate, RoutingDecision, ProviderResponse,
  RouterResponse, stop,
}
use nexus_llm_router.Limiter
use nexus_llm_router.Engine.State.{NexusRouter, Setup, World, Run, admitted, begun, failed_at}
use nexus_llm_router.Engine.Order.{order_attempts}
use nexus_llm_router.Engine.Request.{
  move, in_router, change, guardrails, tenant_inflight_key, rationale_text,
}
use nexus_llm_router.Engine.Respond.{score_outcome, respond}
use nexus_llm_router.Engine.Attempt.{enter_call, leave_call, dispatch, mark_failure}
use nexus_llm_router.Engine.Complete.{Job, is_last, after_skip, after_failure, effective_strategy}

-- What an adapter's stream gives: text, or the provider's own report.
pub data Chunk : Type 0 where
  text : String → Chunk
  report : ProviderResponse → Chunk

-- A stream: its chunks, and the exception that it may end with.
pub record Streaming : Type 0 where
  pub chunks : List Chunk
  pub failure : Option Failure

-- The world of a stream. `adapter_cost` is `adapter.estimate_cost` of a provider's adapter.
pub record StreamWorld : Type 0 where
  pub world : World
  pub stream : ℕ → String → List ChatMessage → ℕ → Streaming
  pub adapter_cost : String → String → ℕ → ℕ → ℕ

-- A streaming request: the router and the state machine, what the caller has been sent, and the flag of
-- the attempt under way.
pub record StreamRun : Type 0 where
  pub run : Run
  pub emitted : List (String × String)
  pub output_started : Bool

abbrev pub in_run : {A : Type 0} → Exec Run A → Exec StreamRun A
in_run = zoom (λ s. s.run) (λ r s. record s { run = r })

-- `assembled += chunk`
unfoldable pub assembled : String → List Chunk → String
assembled acc [] = acc
assembled acc (text t ∷ cs) = assembled (String.◌++◌ acc t) cs
assembled acc (report p ∷ cs) = assembled acc cs

unfoldable pub reported : Option ProviderResponse → List Chunk → Option ProviderResponse
reported last [] = last
reported last (text t ∷ cs) = reported last cs
reported last (report p ∷ cs) = reported (some p) cs

-- `output_started = output_started or bool(chunk)`
unfoldable pub starts_output : Bool → List Chunk → Bool
starts_output started [] = started
starts_output started (text t ∷ cs) = starts_output (started || not (str_eq t "")) cs
starts_output started (report p ∷ cs) = starts_output started cs

-- `yield model_name, chunk`
unfoldable pub yielded : String → List Chunk → List (String × String)
yielded model_name [] = []
yielded model_name (text t ∷ cs) = (model_name, t) ∷ yielded model_name cs
yielded model_name (report p ∷ cs) = yielded model_name cs

module _ (d : Setup) (w : StreamWorld) (job : Job) where
  -- The response of a stream that ended.
  unfoldable pub streamed_response :
      ModelCandidate → String → Option ProviderResponse → String → ProviderResponse
  streamed_response candidate model_name (some p) content = record p {
    content = content;
    model = model_name;
  }
  streamed_response candidate model_name none content =
      let output_tokens = max 1 (String.count content / 4) in
      record {
        content = content;
        model = model_name;
        input_tokens = pos job.signals.prompt_tokens_estimate;
        output_tokens = pos output_tokens;
        cost =
            w.adapter_cost candidate.provider model_name job.signals.prompt_tokens_estimate
              output_tokens;
        finish_reason = stop;
      }

  -- The chunks of a stream go to the caller.
  unfoldable pub pass_on : String → List Chunk → Exec StreamRun (Unit {0})
  unfolding starts_output yielded
  pass_on model_name cs = modify (λ s. record s {
    emitted = s.emitted ++ yielded model_name cs;
    output_started = starts_output s.output_started cs;
  })

  -- What follows the `finally`: the exception of the stream, or the response.
  unfoldable pub end_stream :
      ℕ → ModelCandidate → String → Streaming → Option Failure → Exec StreamRun RouterResponse
  unfolding assembled reported streamed_response
  end_stream i candidate model_name stream (some f) = raise (provider_error f)
  end_stream i candidate model_name stream none = in_run (
      respond w.world i job.request job.signals job.strategy_name
        (rationale_text job.decision.rationale model_name i) candidate.provider
        (streamed_response candidate model_name (reported none stream.chunks)
          (assembled "" stream.chunks)))

  -- The second `try` of an attempt.
  unfoldable pub try_stream : ℕ → ModelCandidate → String → Exec StreamRun RouterResponse
  unfolding pass_on end_stream
  try_stream i candidate model_name = do
    let tenant = tenant_inflight_key job.request
    let stream = w.stream i model_name (d.scrub job.request.messages) job.request.max_tokens
    raise_unless (d.has_adapter candidate.provider) key_error
    in_run dispatch
    in_run (change (enter_call tenant candidate.provider))
    pass_on model_name stream.chunks
    in_run (change (w.world.meanwhile i))
    in_run (change (leave_call tenant candidate.provider))
    end_stream i candidate model_name stream stream.failure

  -- `if state_machine.current_state is DISPATCHED: state_machine.transition(FAILED)`
  unfoldable pub fail_from : RequestState → Exec Run (Unit {0})
  fail_from RequestState.dispatched = move failed
  fail_from _ = pure tt

  -- The end of the handler of a failed attempt.
  unfoldable pub after_stream_failure : Bool → Bool → Exec StreamRun (Option RouterResponse)
  unfolding fail_from
  after_stream_failure true last = do
    state ← gets (λ s. s.run.current_state)
    in_run (fail_from state)
    raise routing_failed
  after_stream_failure false last = do answer ← in_run (after_failure last); pure none

  -- `except Exception`
  unfoldable pub handle_stream_failure :
      ℕ → Bool → String → Error → Exec StreamRun (Option RouterResponse)
  unfolding after_stream_failure
  handle_stream_failure i last provider e = do
    in_run (score_outcome provider false (pos (w.world.clock i failed_at - w.world.clock i begun)))
    in_run (change (mark_failure w.world i job.request provider e))
    started ← gets (λ s. s.output_started)
    after_stream_failure started last

  unfoldable pub answer_or_handle_stream :
      ℕ → Bool → String → Result RouterResponse → Exec StreamRun (Option RouterResponse)
  unfolding handle_stream_failure
  answer_or_handle_stream i last provider (ok response) = pure (some response)
  answer_or_handle_stream i last provider (err e) = handle_stream_failure i last provider e

  -- An attempt whose guardrails passed, and one that is skipped.
  unfoldable pub guarded_stream :
      ℕ
      → Bool
      → String
      → ModelCandidate
      → Result (Unit {0})
      → Exec StreamRun (Option RouterResponse)
  unfolding try_stream answer_or_handle_stream
  guarded_stream i last model_name candidate (err e) = do
    answer ← in_run (after_skip last)
    pure none
  guarded_stream i last model_name candidate (ok _) = do
    modify (λ s. record s { output_started = false })
    catch (try_stream i candidate model_name) (answer_or_handle_stream i last candidate.provider)

  -- One round of the loop.
  unfoldable pub one_stream : ℕ → Bool → String → Exec StreamRun (Option RouterResponse)
  unfolding guarded_stream
  one_stream i last model_name = do
    candidate ← or_raise (Dict.get d.model_catalog model_name) key_error
    catch (in_run (in_router (guardrails w.world i job.request job.signals candidate)))
        (guarded_stream i last model_name candidate)

  unfoldable pub finish_or_stream_on :
      Option RouterResponse → Exec StreamRun RouterResponse → Exec StreamRun RouterResponse
  finish_or_stream_on (some response) rest = pure response
  finish_or_stream_on none rest = rest

  -- The loop over the attempts, and the `raise` behind it.
  unfoldable pub stream_all : ℕ → List String → Exec StreamRun RouterResponse
  unfolding one_stream finish_or_stream_on
  stream_all i [] = raise routing_failed
  stream_all i (m ∷ ms) = do
    answer ← one_stream i (is_last ms) m
    finish_or_stream_on answer (stream_all (suc i) ms)

-- A request that the rate limiter let in.
unfoldable pub admitted_stream : Setup → StreamWorld → RouterRequest → Exec StreamRun RouterResponse
unfolding stream_all
admitted_stream d w request = do
  let strategy_name = effective_strategy d request
  let signals = d.analyze request
  in_run (move classified)
  strategy ← or_raise (d.strategies strategy_name) key_error
  decision ← in_run (in_router (strategy.choose request signals))
  in_run (move routed)
  scoreboard ← gets (λ s. s.run.router.scoreboard)
  attempts ←
      lift (order_attempts scoreboard d.model_catalog decision.chosen_model decision.fallback_chain)
  stream_all d w
      (record {
        request = request;
        signals = signals;
        strategy_name = strategy.strategy_name;
        decision = decision;
      })
      0 attempts

unfoldable pub stream_run : Setup → StreamWorld → RouterRequest → Exec StreamRun RouterResponse
unfolding admitted_stream
stream_run d w request = do
  in_run (
      in_router (
        zoom (λ r. r.rate_limiter) (λ l r. record r { rate_limiter = l })
          (Limiter.assert_allowed request.api_key_id 1 (w.world.clock 0 admitted))))
  admitted_stream d w request

-- The response that `on_complete` is called with or the exception, what the caller was sent, the router
-- that the request leaves, and where its state machine ended.
unfoldable pub complete_stream :
    Setup → StreamWorld → RouterRequest → NexusRouter → Result RouterResponse × StreamRun
unfolding stream_run
complete_stream d w request r = stream_run d w request (record {
  run = record { router = r; current_state = initial_state };
  emitted = [];
  output_started = false;
})
