-- ===== src/Engine/Stream/Ended.antt =====
-- Where the state machine stands in one attempt of `complete_stream` of router/engine.py.
use nexus_llm_router.Prelude.{
  ℕ, ◌≡◌, refl, ap, ◌∙◌, String, Bool, true, false, Option, none, some, Result, Exec, ok, err,
  Failure, List, str_eq, arith,
}
use nexus_llm_router.Prelude.Int.{pos}
use nexus_llm_router.Prelude.Action.{raise, gets, zoom, modify, continue, ◌>>=◌}
use nexus_llm_router.Lifecycle.{
  RequestState, routed, dispatched, responded, fallback, failed, transition,
}
use nexus_llm_router.Schemas.{
  ChatMessage, ModelCandidate, ProviderResponse, RouterResponse, valid_counts,
}
use nexus_llm_router.Scoreboard
use nexus_llm_router.Engine.State.{NexusRouter, Setup, Run}
use nexus_llm_router.Engine.Request.{in_router, change, rationale_text}
use nexus_llm_router.Engine.Respond.{respond, score_outcome}
use nexus_llm_router.Engine.Attempt.{dispatch, dispatch_from}
use nexus_llm_router.Engine.Complete.{Job}
use nexus_llm_router.Engine.Settled.{IsWorking, is_waiting}
use nexus_llm_router.Engine.Answered.{respond-dispatched}
use nexus_llm_router.Engine.Stream.{
  Streaming, streamed_response, assembled, reported, StreamWorld, StreamRun, in_run, pass_on,
  end_stream, try_stream,
}
use nexus_llm_router.Engine.Stream.Triple.{
  Outcome, Triple, Triple-imp, Triple-bind, Triple-modify, Triple-raise_unless,
}

-- A claim about the state machine and the flag of the attempt.
abbrev pub Stand : Type 1
Stand = RequestState → Bool → Type 0

abbrev pub Stands : Stand → StreamRun → Type 0
Stands P s = P s.run.current_state s.output_started

abbrev pub Never : StreamRun → Type 0
Never s = false ≡ true

-- The router's counters do not touch either.
pub change-Triple :
    (P : Stand) (R : StreamRun → Type 0) (f : NexusRouter → NexusRouter)
    → Triple (Stands P) (in_run (change f)) (λ a. Stands P) R
unfolding zoom modify
change-Triple P R f = record { after = λ s h. h }

same_outcome :
    {A : Type 0} (P : Stand) (a : Result A) (s : StreamRun)
    → Stands P s
    → Outcome (λ x. Stands P) (Stands P) a s
same_outcome P (ok a) s h = h
same_outcome P (err e) s h = h

pub in_router-Triple :
    {A : Type 0} (P : Stand) (m : Exec NexusRouter A)
    → Triple (Stands P) (in_run (in_router m)) (λ a. Stands P) (Stands P)
unfolding zoom
in_router-Triple P m = record { after = λ s h. same_outcome P (m s.run.router).0 _ h }

pub score-Triple :
    (P : Stand) (provider : String) (success : Bool) (latency : ℕ)
    → str_eq provider "" ≡ false
    → Triple
        (Stands P)
        (in_run (score_outcome provider success (pos latency)))
        (λ a. Stands P)
        Never
unfolding zoom Scoreboard.record_outcome
score-Triple P provider success latency named = record { after = λ s h. rw named h }

-- Between two attempts, and how an attempt breaks: with text sent it has been dispatched.
abbrev pub Waiting : Stand
Waiting state started = is_waiting state ≡ true

abbrev pub is_open : RequestState → Bool
is_open routed = true
is_open fallback = true
is_open dispatched = true
is_open _ = false

abbrev pub Broken : Stand
Broken state true = state ≡ dispatched
Broken state false = is_open state ≡ true

-- After an attempt: the last one fails the request.
abbrev pub After : Bool → Option RouterResponse → StreamRun → Type 0
After last (some response) s = s.run.current_state ≡ responded
After true none s = s.run.current_state ≡ failed
After false none s = is_waiting s.run.current_state ≡ true

abbrev pub Failed : StreamRun → Type 0
Failed s = s.run.current_state ≡ failed

dispatch-Triple :
    Triple
      (Stands (λ state started. (is_waiting state ≡ true) × (started ≡ false)))
      (in_run dispatch)
      (λ a. Stands (λ state started. (state ≡ dispatched) × (started ≡ false)))
      (Stands Broken)
unfolding zoom gets ◌>>=◌ continue dispatch_from transition
dispatch-Triple = record { after = λ s h. go s.run.router s.run.current_state s.emitted h.0 h.1 }
  where
    go :
        (r : NexusRouter) (state : RequestState) (e : List (String × String)) {b : Bool}
        → is_waiting state ≡ true
        → b ≡ false
        → let (a, r') = dispatch (record { router = r; current_state = state }) in
          Outcome
            (λ a. Stands (λ state started. (state ≡ dispatched) × (started ≡ false)))
            (Stands Broken)
            a
            (record { run = r'; emitted = e; output_started = b })
    go r routed e w f = (refl, f)
    go r fallback e w f = (refl, f)
    go r _ e w f = cc

dispatched-Broken : (state : RequestState) (b : Bool) → state ≡ dispatched → Broken state b
dispatched-Broken state true h = h
dispatched-Broken state false h = rw h refl

waiting-Broken :
    (state : RequestState) (b : Bool) → is_waiting state ≡ true → b ≡ false → Broken state b
waiting-Broken state true h f = cc
waiting-Broken routed false h f = refl
waiting-Broken fallback false h f = refl
waiting-Broken _ false h f = cc

dispatched_run :
    (r : Run)
    → r.current_state ≡ dispatched
    → r ≡ record { router = r.router; current_state = dispatched }
dispatched_run r h = ap (λ (st : RequestState). record { router = r.router; current_state = st }) h

responded_outcome :
    (m : Exec Run RouterResponse) (r r' : Run) (response : RouterResponse) (s : StreamRun)
    → m r ≡ (ok response, r')
    → r'.current_state ≡ responded
    → Outcome
        (λ a s'. s'.run.current_state ≡ responded)
        (Stands Broken)
        (m r).0
        (record s { run = (m r).1 })
responded_outcome m r r' response s e h = rw e h

-- No provider reports a negative number of tokens.
pub record IsReported (w : StreamWorld) : Type 0 where
  pub counts :
      (i : ℕ) (m : String) (messages : List ChatMessage) (most : ℕ) (response : ProviderResponse)
      → reported none (w.stream i m messages most).chunks ≡ some response
      → valid_counts response ≡ true

streamed_response-valid_counts :
    (d : Setup) (w : StreamWorld) (job : Job) (c : ModelCandidate) (m : String)
    (o : Option ProviderResponse) (content : String)
    → ((response : ProviderResponse) → o ≡ some response → valid_counts response ≡ true)
    → valid_counts (streamed_response d w job c m o content) ≡ true
unfolding streamed_response valid_counts
streamed_response-valid_counts d w job c m none content h = ground arith
streamed_response-valid_counts d w job c m (some p) content h = h p refl

module _ (d : Setup) (w : StreamWorld) (works : IsWorking d w.world) (reports : IsReported w)
    (job : Job) where
  end_stream-Triple :
      (i : ℕ) (c : ModelCandidate) (m : String) (stream : Streaming) (failure : Option Failure)
      → str_eq c.provider "" ≡ false
      → ((response : ProviderResponse)
          → reported none stream.chunks ≡ some response
          → valid_counts response ≡ true)
      → Triple
          (Stands (λ state started. state ≡ dispatched))
          (end_stream d w job i c m stream failure)
          (λ a s. s.run.current_state ≡ responded)
          (Stands Broken)
  unfolding end_stream raise zoom
  end_stream-Triple i c m stream (some f) named fine = record {
    after = λ s h. dispatched-Broken _ _ h;
  }
  end_stream-Triple i c m stream none named fine = record {
    after = λ s h.
        let body =
          respond w.world i job.request job.signals job.strategy_name
            (rationale_text job.decision.rationale m i) c.provider
            (streamed_response d w job c m (reported none stream.chunks)
              (assembled "" stream.chunks)) in
        responded_outcome body s.run _ _ s
          (ap body (dispatched_run s.run h)
            ∙ respond-dispatched w.world i job.request job.signals job.strategy_name
                (rationale_text job.decision.rationale m i) c.provider
                (streamed_response d w job c m (reported none stream.chunks)
                  (assembled "" stream.chunks))
                s.run.router named (works.ledger i) (works.audit i)
                (streamed_response-valid_counts d w job c m _ _ fine))
          refl;
  }

  pub try_stream-Triple :
      (i : ℕ) (c : ModelCandidate) (m : String)
      → str_eq c.provider "" ≡ false
      → Triple
          (Stands (λ state started. (is_waiting state ≡ true) × (started ≡ false)))
          (try_stream d w job i c m)
          (λ a s. s.run.current_state ≡ responded)
          (Stands Broken)
  unfolding try_stream pass_on
  try_stream-Triple i c m named =
      let stream = w.stream i m (d.scrub job.request.messages) job.request.max_tokens in
      Triple-bind (λ a. Stands (λ state started. (is_waiting state ≡ true) × (started ≡ false))) _ _
        (Triple-raise_unless _ _ (λ s h. h) (λ s h. waiting-Broken _ _ h.0 h.1))
        (λ a.
          Triple-bind (λ b. Stands (λ state started. (state ≡ dispatched) × (started ≡ false))) _ _
            dispatch-Triple
            (λ b.
              Triple-bind (λ x. Stands (λ state started. state ≡ dispatched)) _ _
                (Triple-imp
                  (λ x. Stands (λ state started. (state ≡ dispatched) × (started ≡ false))) _ _ _ _
                  (λ x s h. h.0) (λ s h. h) (change-Triple _ _ _))
                (λ x.
                  Triple-bind (λ y. Stands (λ state started. state ≡ dispatched)) _ _
                    (Triple-modify _ (λ s h. h))
                    (λ y.
                      Triple-bind (λ z. Stands (λ state started. state ≡ dispatched)) _ _
                        (change-Triple _ _ _)
                        (λ z.
                          Triple-bind (λ u. Stands (λ state started. state ≡ dispatched)) _ _
                            (change-Triple _ _ _)
                            (λ u.
                              end_stream-Triple i c m stream stream.failure named
                                (reports.counts i m _ _)))))))
