-- ===== src/Engine/Stream/Rounds.antt =====
-- Where the state machine stands after each attempt of `complete_stream` of router/engine.py.
use nexus_llm_router.Prelude.{
  ℕ, suc, ◌≡◌, refl, String, Bool, true, false, Option, none, some, Error, Result, Exec, ok, err,
  List, [], ◌∷◌, str_eq,
}
use nexus_llm_router.Prelude.Action.{pure, raise, gets, zoom, continue, ◌>>=◌}
use nexus_llm_router.Prelude.Dict
use nexus_llm_router.Lifecycle.{RequestState, routed, dispatched, responded, fallback, transition}
use nexus_llm_router.Schemas.{ModelCandidate, RouterResponse}
use nexus_llm_router.Engine.State.{NexusRouter, Setup, Run}
use nexus_llm_router.Engine.Complete.{Job, after_skip, after_failure, fall_back_from}
use nexus_llm_router.Engine.Settled.{IsWorking, is_waiting}
use nexus_llm_router.Engine.Order.Known.{Known}
use nexus_llm_router.Engine.Stream.{
  StreamWorld, StreamRun, in_run, fail_from, after_stream_failure, handle_stream_failure,
  answer_or_handle_stream, guarded_stream, one_stream, finish_or_stream_on, stream_all,
}
use nexus_llm_router.Engine.Stream.Triple.{
  Outcome, Triple, Triple-imp, Triple-bind, Triple-catch, Triple-pure, Triple-raise, Triple-gets,
  Triple-modify, Triple-bind-some,
}
use nexus_llm_router.Engine.Stream.Ended.{
  IsReported, Stands, Never, change-Triple, in_router-Triple, score-Triple, Waiting, is_open,
  Broken, After, Failed, try_stream-Triple,
}

module _ (d : Setup) (w : StreamWorld) (works : IsWorking d w.world) (reports : IsReported w)
    (job : Job) where
  after_stream_failure-Triple :
      (started last : Bool)
      → Triple
          (Stands (λ state b. Broken state started))
          (after_stream_failure d w job started last)
          (After last)
          Failed
  unfolding after_stream_failure fail_from after_failure fall_back_from zoom gets ◌>>=◌ continue
      pure raise transition
  after_stream_failure-Triple true last = record {
    after = λ s h. fail s.run.router s.run.current_state h s;
  }
    where
      fail :
          (r : NexusRouter) (state : RequestState)
          → state ≡ dispatched
          → (s : StreamRun)
          → let run : Run = record { router = r; current_state = state } in
            let (a, s') = after_stream_failure d w job true last (record s { run = run }) in
            Outcome (After last) Failed a s'
      fail r dispatched h s = refl
      fail r _ h s = cc
  after_stream_failure-Triple false last = record {
    after = λ s h. go last s.run.router s.run.current_state h s;
  }
    where
      go :
          (l : Bool) (r : NexusRouter) (state : RequestState)
          → is_open state ≡ true
          → (s : StreamRun)
          → let run : Run = record { router = r; current_state = state } in
            let (a, s') = after_stream_failure d w job false l (record s { run = run }) in
            Outcome (After l) Failed a s'
      go true r routed h s = refl
      go true r fallback h s = refl
      go true r dispatched h s = refl
      go true r _ h s = cc
      go false r routed h s = refl
      go false r fallback h s = refl
      go false r dispatched h s = refl
      go false r _ h s = cc

  handle-Triple :
      (i : ℕ) (last : Bool) (provider : String) (e : Error)
      → str_eq provider "" ≡ false
      → Triple (Stands Broken) (handle_stream_failure d w job i last provider e) (After last) Failed
  unfolding handle_stream_failure
  handle-Triple i last provider e named =
      Triple-bind (λ a. Stands Broken) _ _
        (Triple-imp (λ a. Stands Broken) _ Never _ _ (λ a s h. h) (λ s h. cc)
          (score-Triple Broken provider false _ named))
        (λ a.
          Triple-bind (λ b. Stands Broken) _ _ (change-Triple Broken _ _)
            (λ b.
              Triple-bind (λ started. Stands (λ state f. Broken state started)) _ _
                (Triple-gets _ (λ s h. h)) (λ started. after_stream_failure-Triple started last)))

  answer_or_handle-Triple :
      (i : ℕ) (last : Bool) (provider : String) (a : Result RouterResponse)
      → str_eq provider "" ≡ false
      → Triple
          (Outcome (λ x s. s.run.current_state ≡ responded) (Stands Broken) a)
          (answer_or_handle_stream d w job i last provider a)
          (After last)
          Failed
  unfolding answer_or_handle_stream
  answer_or_handle-Triple i last provider (ok response) named =
      Triple-pure (some response) (λ s h. h)
  answer_or_handle-Triple i last provider (err e) named = handle-Triple i last provider e named

  after_skip-Triple :
      (last : Bool)
      → Triple (Stands Waiting) (in_run (after_skip last)) (λ a. After last none) Failed
  unfolding after_skip zoom transition ◌>>=◌ continue pure
  after_skip-Triple last = record { after = λ s h. go last s.run.router s.run.current_state h s }
    where
      go :
          (l : Bool) (r : NexusRouter) (state : RequestState)
          → is_waiting state ≡ true
          → (s : StreamRun)
          → let run : Run = record { router = r; current_state = state } in
            let (a, s') = in_run (after_skip l) (record s { run = run }) in
            Outcome (λ x. After l none) Failed a s'
      go true r routed h s = refl
      go true r fallback h s = refl
      go true r _ h s = cc
      go false r state h s = h

  guarded-Triple :
      (i : ℕ) (last : Bool) (m : String) (c : ModelCandidate) (a : Result (Unit {0}))
      → str_eq c.provider "" ≡ false
      → Triple
          (Outcome (λ x. Stands Waiting) (Stands Waiting) a)
          (guarded_stream d w job i last m c a)
          (After last)
          Failed
  unfolding guarded_stream
  guarded-Triple i last m c (err e) named =
      Triple-bind (λ x. After last none) _ _ (after_skip-Triple last)
        (λ x. Triple-pure none (λ s h. h))
  guarded-Triple i last m c (ok x) named =
      Triple-bind (λ y. Stands (λ state started. (is_waiting state ≡ true) × (started ≡ false))) _ _
        (Triple-modify _ (λ s h. (h, refl)))
        (λ y.
          Triple-catch (λ a s. s.run.current_state ≡ responded) (Stands Broken) _ _
            (try_stream-Triple d w works reports job i c m named)
            (λ a. answer_or_handle-Triple i last c.provider a named))

  one_stream-Triple :
      (i : ℕ) (last : Bool) (m : String) (c : ModelCandidate)
      → Dict.get d.model_catalog m ≡ some c
      → Triple (Stands Waiting) (one_stream d w job i last m) (After last) Failed
  unfolding one_stream
  one_stream-Triple i last m c found = Triple-bind-some _ c _ _ found (
      Triple-catch (λ x. Stands Waiting) (Stands Waiting) _ _ (in_router-Triple Waiting _)
        (λ a. guarded-Triple i last m c a (works.named m c found)))

  finish-Triple :
      (o : Option RouterResponse) (last : Bool) (rest : Exec StreamRun RouterResponse)
      → Triple (After last none) rest (λ a s. s.run.current_state ≡ responded) Failed
      → Triple
          (After last o)
          (finish_or_stream_on d w job o rest)
          (λ a s. s.run.current_state ≡ responded)
          Failed
  unfolding finish_or_stream_on
  finish-Triple none last rest t = t
  finish-Triple (some response) last rest t = Triple-pure response (λ s h. h)

  pub stream_all-Triple :
      (i : ℕ) (m : String) (ms : List String)
      → Known d.model_catalog (m ∷ ms)
      → Triple
          (Stands Waiting)
          (stream_all d w job i (m ∷ ms))
          (λ a s. s.run.current_state ≡ responded)
          Failed
  unfolding stream_all
  stream_all-Triple i m [] known =
      Triple-bind (After true) _ _ (one_stream-Triple i true m known.0.0 known.0.1)
        (λ o. finish-Triple o true _ (Triple-raise _ (λ s h. h)))
  stream_all-Triple i m (n ∷ ms) known =
      Triple-bind (After false) _ _ (one_stream-Triple i false m known.0.0 known.0.1)
        (λ o. finish-Triple o false _ (stream_all-Triple (suc i) n ms known.1))
