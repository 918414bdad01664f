-- ===== src/Engine/Ended.antt =====
-- How `complete` of router/engine.py ends, for every request.
use nexus_llm_router.Prelude.{
  ℕ, suc, ◌≡◌, ◌⊎◌, inl, inr, refl, true, false, Option, some, none, Result, Exec, ok, err,
  rate_limit_exceeded, routing_failed, List, [], ◌∷◌, String,
}
use nexus_llm_router.Prelude.Action.{◌>>=◌, pure, raise, zoom, gets, or_raise, continue, lift}
use nexus_llm_router.Lifecycle.{received, responded, failed, transition}
use nexus_llm_router.Schemas.{RouterRequest, RouterResponse, RoutingDecision}
use nexus_llm_router.Limiter
use nexus_llm_router.Limiter.Conformance.{assert_allowed-cases}
use nexus_llm_router.Engine.State.{NexusRouter, Setup, World, Run, Strategy, admitted}
use nexus_llm_router.Engine.Order.Known.{Known, order_attempts-Known}
use nexus_llm_router.Engine.Complete.{
  Job, effective_strategy, finish_or_go_on, attempt_all, admitted_run, complete_run, complete,
}
use nexus_llm_router.Engine.Settled.{
  IsWorking, IsCounted, Books, IsBookkeeping, Settles, one_attempt-Settles, is_waiting, accounts,
}

-- How a request ends after its strategy has decided.
abbrev pub Ends : Books → Result RouterResponse → Run → Type 0
Ends b (ok response) s = (s.current_state ≡ responded) × b.Charged response (accounts s.router)
Ends b (err routing_failed) s = (s.current_state ≡ failed) × b.Uncharged (accounts s.router)
Ends b (err _) s = false ≡ true

module _ (d : Setup) (w : World) (works : IsWorking d w) (reports : IsCounted w) (job : Job)
    (b : Books) (books : IsBookkeeping w job b) where
  finish-Ends :
      (answer : Result (Option RouterResponse)) (rest : Exec Run RouterResponse) (s : Run)
      → Settles b false answer s
      → (is_waiting s.current_state ≡ true
          → b.Uncharged (accounts s.router)
          → let (a, s') = rest s in Ends b a s')
      → let (a, s') = continue answer (λ c. finish_or_go_on d w job c rest) s in Ends b a s'
  unfolding continue finish_or_go_on pure
  finish-Ends (ok (some response)) rest s h go = h
  finish-Ends (ok none) rest s h go = go h.0 h.1
  finish-Ends (err e) rest s h go = cc

  finish_last-Ends :
      (answer : Result (Option RouterResponse)) (s : Run)
      → Settles b true answer s
      → let (a, s') = continue answer (λ c. finish_or_go_on d w job c (raise routing_failed)) s in
        Ends b a s'
  unfolding continue finish_or_go_on pure raise
  finish_last-Ends (ok (some response)) s h = h
  finish_last-Ends (ok none) s h = h
  finish_last-Ends (err e) s h = cc

  -- The loop over the attempts from a waiting state, for models of the catalog: it answers in
  -- `responded` and charged, or raises `RoutingFailedError` in `failed` and uncharged, and raises
  -- nothing else.
  pub attempt_all-Ends :
      (i : ℕ) (m : String) (ms : List String) (s : Run)
      → Known d.model_catalog (m ∷ ms)
      → is_waiting s.current_state ≡ true
      → b.Uncharged (accounts s.router)
      → let (a, s') = attempt_all d w job i (m ∷ ms) s in Ends b a s'
  unfolding attempt_all ◌>>=◌
  attempt_all-Ends i m [] s known h u =
      finish_last-Ends _ _
        (one_attempt-Settles d w works reports job b books i true m known.0.0 s known.0.1 h u)
  attempt_all-Ends i m (n ∷ ms) s known h u =
      finish-Ends _ (attempt_all d w job (suc i) (n ∷ ms)) _
        (one_attempt-Settles d w works reports job b books i false m known.0.0 s known.0.1 h u)
        (attempt_all-Ends (suc i) n ms _ known.1)

-- The strategies decide: every request has one, and it answers with models of the catalog.
pub record IsDecided (d : Setup) : Type 0 where
  pub found :
      (request : RouterRequest)
      → (strategy : Strategy) × (d.strategies (effective_strategy d request) ≡ some strategy)
  pub decides :
      (request : RouterRequest) (r : NexusRouter)
      → (decision : RoutingDecision) × (((found request).0.choose request (d.analyze request) r).0
          ≡ ok decision)
        × Known d.model_catalog (decision.chosen_model ∷ decision.fallback_chain)

-- The job of a request, once its strategy has decided.
abbrev pub job_of : Setup → RouterRequest → Strategy → RoutingDecision → Job
job_of d request strategy decision = record {
  request = request;
  signals = d.analyze request;
  strategy_name = strategy.strategy_name;
  decision = decision;
}

-- What `complete` leaves of a request that the rate limiter refuses: the limiter has changed, and
-- nothing else.
abbrev pub refused : World → RouterRequest → NexusRouter → Run
refused w request r = record {
  router = record r {
    rate_limiter =
        (Limiter.assert_allowed request.api_key_id 1 (w.clock 0 admitted) r.rate_limiter).1;
  };
  current_state = received;
}

module _ (d : Setup) (w : World) (works : IsWorking d w) (reports : IsCounted w)
    (decided : IsDecided d) (request : RouterRequest) (b : Books)
    (books : (decision : RoutingDecision)
      → IsBookkeeping w (job_of d request (decided.found request).0 decision) b)
    (chooses : (r : NexusRouter)
      → b.Uncharged (accounts r)
      → b.Uncharged
          (accounts ((decided.found request).0.choose request (d.analyze request) r).1)) where
  -- A request that is let in.
  admitted_run-Ends :
      (r : NexusRouter)
      → b.Uncharged (accounts r)
      → let (a, s) = admitted_run d w request (record { router = r; current_state = received }) in
        Ends b a s
  unfolding admitted_run ◌>>=◌ continue zoom transition or_raise pure gets lift
  admitted_run-Ends r u =
      let strategy = (decided.found request).0 in
      let (decision, chosen, known) = decided.decides request r in
      let r' = (strategy.choose request (d.analyze request) r).1 in
      let (ms, order, rest) =
        order_attempts-Known d.model_catalog r'.scoreboard decision.chosen_model
          decision.fallback_chain known in
      rw ((decided.found request).1, chosen, order)
        (attempt_all-Ends d w works reports (job_of d request strategy decision) b (books decision)
          0 decision.chosen_model ms _ (known.0, rest) refl (chooses r u))

  pub complete-Ends :
      (r : NexusRouter)
      → b.Uncharged (accounts r)
      → let (a, s) = complete d w request r in
        ((a ≡ err rate_limit_exceeded) × (s ≡ refused w request r)) ⊎ Ends b a s
  unfolding complete complete_run ◌>>=◌ continue zoom
  complete-Ends r u =
      elim (assert_allowed-cases request.api_key_id 1 (w.clock 0 admitted) r.rate_limiter) [
        | inl fine ↦ rw fine (inr (admitted_run-Ends _ u))
        | inr refusal ↦ rw refusal (inl (refl, refl))
      ]
