-- ===== src/Engine/Stream/Silence.antt =====
-- What one attempt of `complete_stream` of router/engine.py sends to the caller.
use nexus_llm_router.Prelude.{
  ℕ, ◌≡◌, refl, sym, ◌∙◌, String, Bool, true, false, Option, none, some, Result, Exec, ok, err,
  Failure, List, ◌++◌,
}
use nexus_llm_router.Prelude.Action.{zoom, ◌>>=◌}
use nexus_llm_router.Schemas.{
  RouterRequest, ModelCandidate, ProviderResponse, RouterResponse, StrategyName, TaskSignals,
}
use nexus_llm_router.Engine.State.{Setup, World, Run}
use nexus_llm_router.Engine.Respond.{respond, router_response}
use nexus_llm_router.Engine.Complete.{Job}
use nexus_llm_router.Engine.Stream.{
  Chunk, Streaming, StreamWorld, StreamRun, in_run, assembled, reported, starts_output, yielded,
  streamed_response, pass_on, end_stream, try_stream,
}
use nexus_llm_router.Engine.Stream.Triple.{
  Outcome, Triple, Triple-imp, Triple-bind, Triple-raise, Triple-modify, Triple-raise_unless,
  Answers, Answers-bind, Answers-pure,
}
use nexus_llm_router.Engine.Stream.Voice.{
  Sent, heard, Blank, OneVoice, heard-Blank, heard-yielded, yielded-Of, silent-Blank, Blank-append,
  Blank-OneVoice,
}

-- A claim about what was sent and the flag, which the router's own steps do not touch.
abbrev pub Claim : Type 1
Claim = Sent → Bool → Type 0

abbrev pub OfRun : Claim → StreamRun → Type 0
OfRun P s = P s.emitted s.output_started

same_outcome :
    {A : Type 0} (P : Claim) (a : Result A) (s : StreamRun)
    → OfRun P s
    → Outcome (λ x. OfRun P) (OfRun P) a s
same_outcome P (ok a) s h = h
same_outcome P (err e) s h = h

pub Triple-in_run :
    {A : Type 0} (P : Claim) (m : Exec Run A) → Triple (OfRun P) (in_run m) (λ a. OfRun P) (OfRun P)
unfolding zoom
Triple-in_run P m = record { after = λ s h. same_outcome P (m s.run).0 _ h }

respond-content :
    (w : World) (i : ℕ) (request : RouterRequest) (signals : TaskSignals) (name : StrategyName)
    (rationale provider : String) (response : ProviderResponse)
    → Answers
        (λ a. a.content ≡ response.content)
        (respond w i request signals name rationale provider response)
unfolding respond router_response
respond-content w i request signals name rationale provider response = Answers-bind _ _ _ (λ a.
    Answers-bind _ _ _
      (λ b. Answers-bind _ _ _ (λ c. Answers-bind _ _ _ (λ e. Answers-pure _ _ refl))))

answering_outcome :
    {A : Type 0} (P : Claim) (Q : A → Type 0) (a : Result A) (r : Run) (s : StreamRun)
    → OfRun P s
    → Outcome (λ x r'. Q x) (λ r'. Unit {0}) a r
    → Outcome (λ x s'. Q x × OfRun P s') (OfRun P) a s
answering_outcome P Q (ok a) r s h k = (k, h)
answering_outcome P Q (err e) r s h k = h

Triple-in_run-Answers :
    {A : Type 0} (P : Claim) (Q : A → Type 0) (m : Exec Run A)
    → Answers Q m
    → Triple (OfRun P) (in_run m) (λ a s. Q a × OfRun P s) (OfRun P)
unfolding zoom
Triple-in_run-Answers P Q m k = record {
  after = λ s h. answering_outcome P Q (m s.run).0 (m s.run).1 _ h (k.answer s.run);
}

-- A step of the router, which what was sent does not depend on, and then the rest.
pub keeping :
    {A B : Type 0} {answered : B → StreamRun → Type 0} (P R : Claim) (m : Exec Run A)
    (f : A → Exec StreamRun B)
    → ((es : Sent) (b : Bool) → P es b → R es b)
    → ((a : A) → Triple (OfRun P) (f a) answered (OfRun R))
    → Triple (OfRun P) (in_run m >>= f) answered (OfRun R)
keeping P R m f weaker next =
    Triple-bind (λ a. OfRun P) (in_run m) f
      (Triple-imp (λ a. OfRun P) (λ a. OfRun P) (OfRun P) (OfRun R) (in_run m) (λ a s h. h)
        (λ s h. weaker _ _ h) (Triple-in_run P m))
      next

-- Nothing was heard yet; all was one model's; and that, with nothing heard where the flag is down.
abbrev pub Silent : Claim
Silent es b = Blank es

abbrev pub Voiced : Claim
Voiced es b = OneVoice es

abbrev pub Told : Bool → Sent → Type 0
Told true es = Unit {0}
Told false es = Blank es

abbrev pub Spoken : Claim
Spoken es b = OneVoice es × Told b es

-- The caller heard this text.
abbrev pub Heard : String → Claim
Heard content es b = OneVoice es × (heard "" es ≡ content)

abbrev pub Passed : String → Claim
Passed content es b = Spoken es b × (heard "" es ≡ content)

started-Told :
    (m : String) (es : Sent) (cs : List Chunk) (b : Bool)
    → starts_output false cs ≡ b
    → Blank es
    → Told b (es ++ yielded m cs)
started-Told m es cs true e h = tt
started-Told m es cs false e h = Blank-append es _ h (silent-Blank m cs e)

-- The start of an attempt.
abbrev pub Ready : Claim
Ready es b = Blank es × (b ≡ false)

pub Ready-Spoken : (es : Sent) (b : Bool) → Ready es b → Spoken es b
Ready-Spoken es b h = (Blank-OneVoice es h.0, rw h.1 h.0)

module _ (d : Setup) (w : StreamWorld) (job : Job) where
  pass_on-Triple :
      (m : String) (cs : List Chunk)
      → Triple
          (OfRun Ready)
          (pass_on d w job m cs)
          (λ a. OfRun (Passed (assembled "" cs)))
          (OfRun Spoken)
  unfolding pass_on
  pass_on-Triple m cs = Triple-modify _ (λ s h. (
    (
      (m, s.emitted, yielded m cs, refl, h.0, yielded-Of m cs),
      rw h.1 (started-Told m s.emitted cs (starts_output false cs) refl h.0),
    ),
    heard-Blank s.emitted (yielded m cs) h.0 ∙ heard-yielded m "" cs,
  ))

  streamed_response-content :
      (candidate : ModelCandidate) (m : String) (p : Option ProviderResponse) (content : String)
      → (streamed_response d w job candidate m p content).content ≡ content
  unfolding streamed_response
  streamed_response-content candidate m none content = refl
  streamed_response-content candidate m (some p) content = refl

  -- What was heard is the answer.
  abbrev pub Done : RouterResponse → StreamRun → Type 0
  Done response = OfRun (Heard response.content)

  end_stream-Triple :
      (i : ℕ) (candidate : ModelCandidate) (m : String) (stream : Streaming)
      (failure : Option Failure)
      → Triple
          (OfRun (Passed (assembled "" stream.chunks)))
          (end_stream d w job i candidate m stream failure)
          Done
          (OfRun Spoken)
  unfolding end_stream
  end_stream-Triple i candidate m stream (some f) = Triple-raise _ (λ s h. h.0)
  end_stream-Triple i candidate m stream none =
      Triple-imp
        (λ a s.
          (a.content
            ≡ (streamed_response d w job candidate m (reported none stream.chunks)
                (assembled "" stream.chunks)).content)
          × OfRun (Passed (assembled "" stream.chunks)) s)
        Done (OfRun (Passed (assembled "" stream.chunks))) (OfRun Spoken) _
        (λ a s h. (h.1.0.0, h.1.1 ∙ (sym (streamed_response-content candidate m _ _) ∙ sym h.0)))
        (λ s h. h.0)
        (Triple-in_run-Answers (Passed (assembled "" stream.chunks)) _ _
          (respond-content _ _ _ _ _ _ _ _))

  pub try_stream-Triple :
      (i : ℕ) (candidate : ModelCandidate) (m : String)
      → Triple (OfRun Ready) (try_stream d w job i candidate m) Done (OfRun Spoken)
  unfolding try_stream
  try_stream-Triple i candidate m =
      let stream = w.stream i m (d.scrub job.request.messages) job.request.max_tokens in
      let heard_all = Passed (assembled "" stream.chunks) in
      Triple-bind (λ a. OfRun Ready) _ _
        (Triple-raise_unless _ _ (λ s h. h) (λ s h. Ready-Spoken _ _ h))
        (λ a. keeping Ready Spoken _ _ Ready-Spoken (λ b.
          keeping Ready Spoken _ _ Ready-Spoken (λ c.
            Triple-bind (λ x. OfRun heard_all) _ _ (pass_on-Triple m stream.chunks)
              (λ x.
                keeping heard_all Spoken _ _ (λ es f h. h.0)
                  (λ y.
                    keeping heard_all Spoken _ _ (λ es f h. h.0)
                      (λ z. end_stream-Triple i candidate m stream stream.failure))))))
