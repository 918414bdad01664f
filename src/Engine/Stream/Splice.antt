-- ===== src/Engine/Stream/Splice.antt =====
-- No answer of `complete_stream` of router/engine.py is spliced from two.
use nexus_llm_router.Prelude.{
  ℕ, suc, ◌≡◌, refl, String, Bool, true, false, Option, none, some, Error, Result, Exec, ok, err,
  List, [], ◌∷◌,
}
use nexus_llm_router.Schemas.{RouterRequest, ModelCandidate, RouterResponse}
use nexus_llm_router.Engine.State.{NexusRouter, Setup}
use nexus_llm_router.Engine.Complete.{Job, is_last}
use nexus_llm_router.Engine.Ended.{job_of}
use nexus_llm_router.Engine.Stream.{
  StreamWorld, StreamRun, after_stream_failure, handle_stream_failure, answer_or_handle_stream,
  guarded_stream, one_stream, finish_or_stream_on, stream_all, admitted_stream, stream_run,
  complete_stream,
}
use nexus_llm_router.Engine.Stream.Triple.{
  Outcome, Triple, Triple-bind, Triple-catch, Triple-pure, Triple-raise, Triple-gets,
  Triple-or_raise, Triple-lift, Triple-modify,
}
use nexus_llm_router.Engine.Stream.Voice.{Sent, heard, Blank, OneVoice, Blank-OneVoice}
use nexus_llm_router.Engine.Stream.Silence.{
  OfRun, Triple-in_run, keeping, Silent, Voiced, Told, Spoken, Heard, Ready, Done,
  try_stream-Triple,
}

module _ (d : Setup) (w : StreamWorld) (job : Job) where
  -- How an attempt ends: with the answer that was heard, or with nothing heard.
  abbrev Step : Option RouterResponse → StreamRun → Type 0
  Step (some response) = Done d w job response
  Step none = OfRun Silent

  after_stream_failure-Triple :
      (started last : Bool)
      → Triple
          (OfRun (λ es b. OneVoice es × Told started es))
          (after_stream_failure d w job started last)
          Step
          (OfRun Voiced)
  unfolding after_stream_failure
  after_stream_failure-Triple true last =
      Triple-bind (λ a. OfRun Voiced) _ _ (Triple-gets _ (λ s h. h.0))
        (λ a. keeping Voiced Voiced _ _ (λ es b h. h) (λ b. Triple-raise _ (λ s h. h)))
  after_stream_failure-Triple false last =
      keeping (λ es b. OneVoice es × Blank es) Voiced _ _ (λ es b h. h.0)
        (λ a. Triple-pure none (λ s h. h.1))

  handle-Triple :
      (i : ℕ) (last : Bool) (provider : String) (e : Error)
      → Triple (OfRun Spoken) (handle_stream_failure d w job i last provider e) Step (OfRun Voiced)
  unfolding handle_stream_failure
  handle-Triple i last provider e =
      keeping Spoken Voiced _ _ (λ es b h. h.0)
        (λ a.
          keeping Spoken Voiced _ _ (λ es b h. h.0)
            (λ b.
              Triple-bind (λ started. OfRun (λ es f. OneVoice es × Told started es)) _ _
                (Triple-gets _ (λ s h. h)) (λ started. after_stream_failure-Triple started last)))

  answer_or_handle-Triple :
      (i : ℕ) (last : Bool) (provider : String) (a : Result RouterResponse)
      → Triple
          (Outcome (Done d w job) (OfRun Spoken) a)
          (answer_or_handle_stream d w job i last provider a)
          Step
          (OfRun Voiced)
  unfolding answer_or_handle_stream
  answer_or_handle-Triple i last provider (ok response) = Triple-pure (some response) (λ s h. h)
  answer_or_handle-Triple i last provider (err e) = handle-Triple i last provider e

  guarded-Triple :
      (i : ℕ) (last : Bool) (m : String) (candidate : ModelCandidate) (a : Result (Unit {0}))
      → Triple
          (Outcome (λ x. OfRun Silent) (OfRun Silent) a)
          (guarded_stream d w job i last m candidate a)
          Step
          (OfRun Voiced)
  unfolding guarded_stream
  guarded-Triple i last m candidate (err e) =
      keeping Silent Voiced _ _ (λ es b h. Blank-OneVoice es h) (λ x. Triple-pure none (λ s h. h))
  guarded-Triple i last m candidate (ok x) =
      Triple-bind (λ y. OfRun Ready) _ _ (Triple-modify _ (λ s h. (h, refl)))
        (λ y.
          Triple-catch (Done d w job) (OfRun Spoken) _ _ (try_stream-Triple d w job i candidate m)
            (λ a. answer_or_handle-Triple i last candidate.provider a))

  one_stream-Triple :
      (i : ℕ) (last : Bool) (m : String)
      → Triple (OfRun Silent) (one_stream d w job i last m) Step (OfRun Voiced)
  unfolding one_stream
  one_stream-Triple i last m =
      Triple-bind (λ c. OfRun Silent) _ _
        (Triple-or_raise _ _ (λ c s h. h) (λ s h. Blank-OneVoice _ h))
        (λ c.
          Triple-catch (λ x. OfRun Silent) (OfRun Silent) _ _ (Triple-in_run Silent _)
            (λ a. guarded-Triple i last m c a))

  finish-Triple :
      (o : Option RouterResponse) (rest : Exec StreamRun RouterResponse)
      → Triple (OfRun Silent) rest (Done d w job) (OfRun Voiced)
      → Triple (Step o) (finish_or_stream_on d w job o rest) (Done d w job) (OfRun Voiced)
  unfolding finish_or_stream_on
  finish-Triple none rest t = t
  finish-Triple (some response) rest t = Triple-pure response (λ s h. h)

  stream_all-Triple :
      (i : ℕ) (ms : List String)
      → Triple (OfRun Silent) (stream_all d w job i ms) (Done d w job) (OfRun Voiced)
  unfolding stream_all
  stream_all-Triple i [] = Triple-raise _ (λ s h. Blank-OneVoice _ h)
  stream_all-Triple i (m ∷ ms) =
      Triple-bind Step _ _ (one_stream-Triple i (is_last ms) m)
        (λ o. finish-Triple o _ (stream_all-Triple (suc i) ms))

module _ (d : Setup) (w : StreamWorld) (request : RouterRequest) where
  admitted_stream-Triple :
      Triple
        (OfRun Silent)
        (admitted_stream d w request)
        (λ response. OfRun (Heard response.content))
        (OfRun Voiced)
  unfolding admitted_stream
  admitted_stream-Triple = keeping Silent Voiced _ _ weaker (λ a.
      Triple-bind (λ s. OfRun Silent) _ _
        (Triple-or_raise _ _ (λ c s h. h) (λ s h. Blank-OneVoice _ h))
        (λ s. keeping Silent Voiced _ _ weaker (λ decision. keeping Silent Voiced _ _ weaker (λ b.
          Triple-bind (λ x. OfRun Silent) _ _ (Triple-gets _ (λ x h. h))
            (λ x.
              Triple-bind (λ y. OfRun Silent) _ _
                (Triple-lift _ (λ y z h. h) (λ z h. Blank-OneVoice _ h))
                (λ y. stream_all-Triple d w (job_of d request s decision) 0 y))))))
    where
      weaker : (es : Sent) (b : Bool) → Silent es b → Voiced es b
      weaker es b h = Blank-OneVoice es h

  stream_run-Triple :
      Triple
        (OfRun Silent)
        (stream_run d w request)
        (λ response. OfRun (Heard response.content))
        (OfRun Voiced)
  unfolding stream_run
  stream_run-Triple =
      keeping Silent Voiced _ _ (λ es b h. Blank-OneVoice es h) (λ a. admitted_stream-Triple)

-- What the caller of a stream heard, by how it ended.
abbrev pub Hears : Result RouterResponse → Sent → Type 0
Hears (ok response) es = OneVoice es × (heard "" es ≡ response.content)
Hears (err e) es = OneVoice es

Outcome-Hears :
    (a : Result RouterResponse) (s : StreamRun)
    → Outcome (λ response. OfRun (Heard response.content)) (OfRun Voiced) a s
    → Hears a s.emitted
Outcome-Hears (ok response) s h = h
Outcome-Hears (err e) s h = h

-- No answer is spliced from two. However `complete_stream` ends, all text that the caller was sent is of
-- one model: the pieces sent before that model's have no text. When it ends with a response, the
-- content of that response is exactly the text that the caller was sent.
pub complete_stream-Hears :
    (d : Setup) (w : StreamWorld) (request : RouterRequest) (r : NexusRouter)
    → let (a, s) = complete_stream d w request r in Hears a s.emitted
unfolding complete_stream
complete_stream-Hears d w request r = Outcome-Hears _ _ ((stream_run-Triple d w request).after _ tt)
