-- ===== src/Engine/Loads.antt =====
-- The in-flight counters over a whole request.
use nexus_llm_router.Prelude.{
  ℕ, ◌≡◌, ◌∙◌, refl, String, Bool, true, false, Option, none, some, List, [], ◌∷◌, Result, Exec, ok,
  err, Error, suc,
}
use nexus_llm_router.Lifecycle.{RequestState, routed, fallback, dispatched}
use nexus_llm_router.Prelude.Action.{◌>>=◌, modify, zoom, continue}
use nexus_llm_router.Schemas.{
  RouterRequest, TaskSignals, ProviderResponse, RouterResponse, ModelCandidate, StrategyName,
  RoutingDecision,
}
use nexus_llm_router.Stats.Inflight.{InflightStats, load_score, load_score-around, around}
use nexus_llm_router.Engine.State.{
  NexusRouter, Setup, World, Run, Strategy, Outcome, replied, raised,
}
use nexus_llm_router.Engine.Preserves.{
  Preserves, preserving, Preserves-zoom, Preserves-bind, Preserves-or_raise, Preserves-catch,
  Preserves-in_router, Preserves-lift, Preserves-gets, Preserves-bind-or_raise,
}
use nexus_llm_router.Engine.Request.{tenant_inflight_key, guardrails}
use nexus_llm_router.Engine.Respond.{
  respond, credit, book, write_audit, mark_success, note_answer, note_spend, note_region,
}
use nexus_llm_router.Engine.Attempt.{
  enter_call, leave_call, answer_of, dispatch_from, call_provider, try_attempt, mark_failure,
}
use nexus_llm_router.Engine.Complete.{
  Job, after_skip, after_failure, fall_back_from, handle_failure, guarded_attempt, one_attempt,
  finish_or_go_on, answer_or_handle, attempt_all, admitted_run, complete_run, complete,
}

-- A predicate of the counters alone.
abbrev Of : (InflightStats → Type 0) → Run → Type 0
Of Q s = Q s.router.inflight_stats

-- The loads are those of a given router.
abbrev SameLoads : InflightStats → InflightStats → Type 0
SameLoads before now = (q : String) → load_score now q ≡ load_score before q

module _ (Q : InflightStats → Type 0) where
  Preserves-respond :
      (w : World) (i : ℕ) (request : RouterRequest) (signals : TaskSignals) (name : StrategyName)
      (rationale provider : String) (response : ProviderResponse)
      → Preserves (Of Q) (respond w i request signals name rationale provider response)
  unfolding respond credit book write_audit mark_success note_answer note_spend note_region ◌>>=◌
      modify zoom
  Preserves-respond w i request signals name rationale provider response =
      search preserving depth 40

  Preserves-dispatch_from : (state : RequestState) → Preserves (Of Q) (dispatch_from state)
  unfolding dispatch_from zoom
  Preserves-dispatch_from routed = search preserving
  Preserves-dispatch_from fallback = search preserving
  Preserves-dispatch_from _ = search preserving

  Preserves-fall_back_from : (state : RequestState) → Preserves (Of Q) (fall_back_from state)
  unfolding fall_back_from zoom
  Preserves-fall_back_from dispatched = search preserving
  Preserves-fall_back_from _ = search preserving

  Preserves-after_skip : (last : Bool) → Preserves (Of Q) (after_skip last)
  unfolding after_skip zoom
  Preserves-after_skip true = search preserving depth 9
  Preserves-after_skip false = search preserving

  Preserves-after_failure : (last : Bool) → Preserves (Of Q) (after_failure last)
  unfolding after_failure zoom
  Preserves-after_failure true = search preserving depth 9
  Preserves-after_failure false = search (preserving, Preserves-fall_back_from) depth 9

  Preserves-answer_of : (o : Outcome) → Preserves (Of Q) (answer_of o)
  unfolding answer_of
  Preserves-answer_of (replied response) = search preserving
  Preserves-answer_of (raised failure) = search preserving

  module _ (d : Setup) (w : World) (job : Job) where
    Preserves-handle_failure :
        (i : ℕ) (last : Bool) (provider : String) (e : Error)
        → Preserves (Of Q) (handle_failure d w job i last provider e)
    unfolding handle_failure mark_failure modify zoom ◌>>=◌
    Preserves-handle_failure i last provider e =
        search (preserving, Preserves-after_failure) depth 9

-- What happens elsewhere while this request waits, and while its strategy decides, changes no load.
pub record IsQuiet (d : Setup) (w : World) : Type 0 where
  pub waiting :
      (i : ℕ) (r : NexusRouter) → SameLoads r.inflight_stats (w.meanwhile i r).inflight_stats
  pub choosing :
      (name : StrategyName) (strategy : Strategy)
      → d.strategies name ≡ some strategy
      → (request : RouterRequest) (signals : TaskSignals) (r : NexusRouter)
      → SameLoads r.inflight_stats (strategy.choose request signals r).1.inflight_stats

module _ (d : Setup) (w : World) (quiet : IsQuiet d w) (before : InflightStats) where
  abbrev Same : Run → Type 0
  Same = Of (SameLoads before)

  Preserves-call_provider :
      (i : ℕ) (request : RouterRequest) (candidate : ModelCandidate) (model_name : String)
      → Preserves Same (call_provider d w i request candidate model_name)
  unfolding call_provider modify ◌>>=◌ continue enter_call leave_call around
  Preserves-call_provider i request candidate model_name = record {
    after = λ s h.
        let tenant = tenant_inflight_key request in
        let meanwhile : InflightStats → InflightStats =
          λ t. (w.meanwhile i (record s.router { inflight_stats = t })).inflight_stats in
        let kept =
          load_score-around tenant candidate.provider meanwhile s.router.inflight_stats
            (λ t. quiet.waiting i (record s.router { inflight_stats = t })) in
        (Preserves-answer_of (SameLoads before)
            (w.call i model_name (d.scrub request.messages) request.max_tokens)).after
          _ (λ q. kept q ∙ h q);
  }

  Preserves-try_attempt :
      (i : ℕ) (request : RouterRequest) (signals : TaskSignals) (name : StrategyName)
      (decision : RoutingDecision) (candidate : ModelCandidate) (model_name : String)
      → Preserves Same (try_attempt d w i request signals name decision candidate model_name)
  unfolding try_attempt
  Preserves-try_attempt i request signals name decision candidate model_name =
      search (preserving, Preserves-call_provider, Preserves-respond, Preserves-dispatch_from) depth
        12

  Preserves-guardrails :
      (i : ℕ) (request : RouterRequest) (signals : TaskSignals) (candidate : ModelCandidate)
      → Preserves
          (λ r. SameLoads before r.inflight_stats)
          (guardrails w i request signals candidate)
  unfolding guardrails
  Preserves-guardrails i request signals candidate = search preserving

  Preserves-choose :
      {name : StrategyName} (request : RouterRequest) (strategy : Strategy)
      → d.strategies name ≡ some strategy
      → Preserves
          (λ r. SameLoads before r.inflight_stats)
          (strategy.choose request (d.analyze request))
  Preserves-choose {name = name} request strategy found = record {
    after = λ r h q. quiet.choosing name strategy found request (d.analyze request) r q ∙ h q;
  }

  module _ (job : Job) where
    Preserves-answer_or_handle :
        (i : ℕ) (last : Bool) (provider : String) (r : Result RouterResponse)
        → Preserves Same (answer_or_handle d w job i last provider r)
    unfolding answer_or_handle
    Preserves-answer_or_handle i last provider (ok response) = search preserving
    Preserves-answer_or_handle i last provider (err e) =
        Preserves-handle_failure (SameLoads before) d w job i last provider e

    Preserves-guarded_attempt :
        (i : ℕ) (last : Bool) (m : String) (candidate : ModelCandidate) (r : Result (Unit {0}))
        → Preserves Same (guarded_attempt d w job i last m candidate r)
    unfolding guarded_attempt
    Preserves-guarded_attempt i last m candidate (ok _) =
        search (preserving, Preserves-try_attempt, Preserves-answer_or_handle)
    Preserves-guarded_attempt i last m candidate (err e) =
        Preserves-after_skip (SameLoads before) last

    Preserves-one_attempt :
        (i : ℕ) (last : Bool) (m : String) → Preserves Same (one_attempt d w job i last m)
    unfolding one_attempt
    Preserves-one_attempt i last m = Preserves-bind _ _ (Preserves-or_raise _ _) (λ candidate.
        Preserves-catch _ _
          (Preserves-in_router _ (Preserves-guardrails i job.request job.signals candidate))
          (Preserves-guarded_attempt i last m candidate))

    Preserves-finish_or_go_on :
        (answer : Option RouterResponse) (rest : Exec Run RouterResponse)
        → Preserves Same rest
        → Preserves Same (finish_or_go_on d w job answer rest)
    unfolding finish_or_go_on
    Preserves-finish_or_go_on (some response) rest h = search preserving
    Preserves-finish_or_go_on none rest h = h

    Preserves-attempt_all : (i : ℕ) (ms : List String) → Preserves Same (attempt_all d w job i ms)
    unfolding attempt_all
    Preserves-attempt_all i [] = search preserving
    Preserves-attempt_all i (m ∷ ms) =
        Preserves-bind _ _ (Preserves-one_attempt i _ m)
          (λ answer. Preserves-finish_or_go_on answer _ (Preserves-attempt_all (suc i) ms))

  Preserves-complete_run : (request : RouterRequest) → Preserves Same (complete_run d w request)
  unfolding complete_run admitted_run
  Preserves-complete_run request =
      Preserves-bind _ _ (Preserves-in_router _ (Preserves-zoom _ _ _ (λ t s h. h))) (λ _.
        Preserves-bind _ _ (Preserves-zoom _ _ _ (λ t s h. h)) (λ _.
          Preserves-bind-or_raise _ _ _ (λ strategy found.
            Preserves-bind _ _ (Preserves-in_router _ (Preserves-choose request strategy found))
              (λ decision. Preserves-bind _ _ (Preserves-zoom _ _ _ (λ t s h. h)) (λ _.
                Preserves-bind _ _ (Preserves-gets _) (λ scoreboard.
                  Preserves-bind _ _ (Preserves-lift _)
                    (λ attempts. Preserves-attempt_all _ 0 attempts)))))))

-- A request leaves nothing in flight: whether it is answered, refused or fails, and however many
-- providers it tried, the counters of every provider and tenant are what they were before it, when
-- what other requests do while it waits and what its strategy does leave them alone.
pub load_score-complete :
    (d : Setup) (w : World) (request : RouterRequest) (r : NexusRouter)
    → IsQuiet d w
    → (q : String)
    → load_score (complete d w request r).1.router.inflight_stats q ≡ load_score r.inflight_stats q
unfolding complete
load_score-complete d w request r quiet =
    (Preserves-complete_run d w quiet r.inflight_stats request).after _ (λ q. refl)
