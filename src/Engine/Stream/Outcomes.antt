-- ===== src/Engine/Stream/Outcomes.antt =====
-- How `complete_stream` of router/engine.py ends, for every request.
use nexus_llm_router.Prelude.{
  ◌≡◌, ◌⊎◌, inl, inr, refl, false, Result, ok, err, rate_limit_exceeded, [],
}
use nexus_llm_router.Prelude.Action.{◌>>=◌, pure, gets, or_raise, lift, zoom, continue}
use nexus_llm_router.Lifecycle.{received, responded, failed, transition}
use nexus_llm_router.Schemas.{RouterRequest, RouterResponse}
use nexus_llm_router.Limiter.Conformance.{assert_allowed-cases}
use nexus_llm_router.Engine.State.{NexusRouter, Setup, Run, admitted}
use nexus_llm_router.Engine.Order.Known.{order_attempts-Known}
use nexus_llm_router.Engine.Settled.{IsWorking}
use nexus_llm_router.Engine.Ended.{IsDecided, refused, job_of}
use nexus_llm_router.Engine.Stream.{
  StreamWorld, StreamRun, admitted_stream, stream_run, complete_stream,
}
use nexus_llm_router.Engine.Stream.Triple.{Outcome}
use nexus_llm_router.Engine.Stream.Ended.{IsReported, Failed}
use nexus_llm_router.Engine.Stream.Rounds.{stream_all-Triple}

-- A stream that ends with a response leaves the machine at `responded`, one that raises at `failed`.
abbrev pub Settled : Result RouterResponse → StreamRun → Type 0
Settled (ok response) s = s.run.current_state ≡ responded
Settled (err e) s = s.run.current_state ≡ failed

abbrev pub start : Run → StreamRun
start run = record { run = run; emitted = []; output_started = false }

Outcome-Settled :
    (a : Result RouterResponse) (s : StreamRun)
    → Outcome (λ x s'. s'.run.current_state ≡ responded) Failed a s
    → Settled a s
Outcome-Settled (ok response) s h = h
Outcome-Settled (err e) s h = h

module _ (d : Setup) (w : StreamWorld) (works : IsWorking d w.world) (reports : IsReported w)
    (decided : IsDecided d) (request : RouterRequest) where
  admitted_stream-Settled :
      (r : NexusRouter)
      → let (a, s) =
          admitted_stream d w request (start (record { router = r; current_state = received })) in
        Settled a s
  unfolding admitted_stream ◌>>=◌ continue zoom transition or_raise pure gets lift
  admitted_stream-Settled r =
      let strategy = (decided.found request).0 in
      let (decision, chosen, known) = decided.decides request r in
      let r' = (strategy.choose request (d.analyze request) r).1 in
      let (ms, order, rest) =
        order_attempts-Known d.model_catalog r'.scoreboard decision.chosen_model
          decision.fallback_chain known in
      rw ((decided.found request).1, chosen, order)
        (Outcome-Settled _ _ (
          (stream_all-Triple d w works reports (job_of d request strategy decision) 0
              decision.chosen_model ms (known.0, rest)).after
            _ refl))

  -- Every streamed request ends in one of three ways: the rate limiter refuses it, only the limiter has
  -- changed and nothing was sent; it ends with a response, and its state machine stands at `responded`;
  -- or it raises, and the machine stands at `failed`, also when the provider broke off after text was
  -- sent. The writes to disk succeed, no
  -- provider reports a negative number of tokens, providers have names, and the strategies decide for models
  -- of the catalog.
  pub complete_stream-Settled :
      (r : NexusRouter)
      → let (a, s) = complete_stream d w request r in
        ((a ≡ err rate_limit_exceeded) × (s ≡ start (refused w.world request r))) ⊎ Settled a s
  unfolding complete_stream stream_run ◌>>=◌ continue zoom
  complete_stream-Settled r =
      elim (assert_allowed-cases request.api_key_id 1 (w.world.clock 0 admitted) r.rate_limiter) [
        | inl fine ↦ rw fine (inr (admitted_stream-Settled _))
        | inr refusal ↦ rw refusal (inl (refl, refl))
      ]
