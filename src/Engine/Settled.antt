-- ===== src/Engine/Settled.antt =====
-- How the attempts of a request end: in its own state machine, and in the accounts.
use nexus_llm_router.Prelude.{
  ℕ, ◌+◌, ltb, ◌≡◌, refl, String, Bool, true, false, Option, none, some, List, Result, ok, err,
  Error, str_eq, Bool-cases, inl, inr,
}
use nexus_llm_router.Prelude.Dict
use nexus_llm_router.Prelude.Action.{
  ◌>>=◌, pure, raise, modify, zoom, gets, or_raise, continue, catch, raise_unless,
}
use nexus_llm_router.Lifecycle.{
  RequestState, routed, dispatched, responded, fallback, failed, transition,
}
use nexus_llm_router.Schemas.{
  ChatMessage, RouterRequest, TaskSignals, ModelCandidate, ProviderResponse, RouterResponse,
  AuditRecord, estimate_cost, valid_counts,
}
use nexus_llm_router.Scoreboard
use nexus_llm_router.Engine.State.{
  NexusRouter, SpendRecord, Setup, World, Run, Outcome, replied, raised,
}
use nexus_llm_router.Engine.Request.{guardrails}
use nexus_llm_router.Engine.Respond.{respond, router_response, latency_of}
use nexus_llm_router.Engine.Answered.{respond-dispatched, credited, booked, audited}
use nexus_llm_router.Budget
use nexus_llm_router.Budget.{BudgetGuardrail}
use nexus_llm_router.Engine.Attempt.{
  try_attempt, dispatch_from, call_provider, answer_of, enter_call, leave_call, mark_failure,
}
use nexus_llm_router.Engine.Complete.{
  Job, after_skip, after_failure, fall_back_from, handle_failure, answer_or_handle, guarded_attempt,
  one_attempt,
}

-- Between two attempts.
abbrev pub is_waiting : RequestState → Bool
is_waiting routed = true
is_waiting fallback = true
is_waiting _ = false

-- Inside an attempt.
abbrev is_open : RequestState → Bool
is_open routed = true
is_open fallback = true
is_open dispatched = true
is_open _ = false

-- What a request is charged to.
pub record Accounts : Type 0 where
  pub spend_ledger : List SpendRecord
  pub audit_log : List AuditRecord
  pub budget : BudgetGuardrail

abbrev pub accounts : NexusRouter → Accounts
accounts r = record {
  spend_ledger = r.spend_ledger;
  audit_log = r.audit_log;
  budget = r.budget_guardrail;
}

-- Two states of the accounts: with the request uncharged, and with its response charged.
pub record Books : Type 1 where
  pub Uncharged : Accounts → Type 0
  pub Charged : RouterResponse → Accounts → Type 0

-- How one attempt ends.
abbrev pub Settles : Books → Bool → Result (Option RouterResponse) → Run → Type 0
Settles b last (ok (some response)) s =
    (s.current_state ≡ responded) × b.Charged response (accounts s.router)
Settles b true (ok none) s = (s.current_state ≡ failed) × b.Uncharged (accounts s.router)
Settles b false (ok none) s = (is_waiting s.current_state ≡ true) × b.Uncharged (accounts s.router)
Settles b last (err e) s = false ≡ true

-- How the second `try` of an attempt ends.
abbrev Tries : Books → Result RouterResponse → Run → Type 0
Tries b (ok response) s = (s.current_state ≡ responded) × b.Charged response (accounts s.router)
Tries b (err e) s = (is_open s.current_state ≡ true) × b.Uncharged (accounts s.router)

module _ (b : Books) where
  after_skip-Settles :
      (last : Bool) (r : NexusRouter) (state : RequestState)
      → is_waiting state ≡ true
      → b.Uncharged (accounts r)
      → let (a, s) = after_skip last (record { router = r; current_state = state }) in
        Settles b last a s
  unfolding after_skip zoom ◌>>=◌ continue transition pure
  after_skip-Settles true r routed h u = (refl, u)
  after_skip-Settles true r fallback h u = (refl, u)
  after_skip-Settles true r _ h u = cc
  after_skip-Settles false r state h u = (h, u)

  after_failure-Settles :
      (last : Bool) (r : NexusRouter) (state : RequestState)
      → is_open state ≡ true
      → b.Uncharged (accounts r)
      → let (a, s) = after_failure last (record { router = r; current_state = state }) in
        Settles b last a s
  unfolding after_failure fall_back_from zoom ◌>>=◌ continue transition pure gets
  after_failure-Settles true r routed h u = (refl, u)
  after_failure-Settles true r fallback h u = (refl, u)
  after_failure-Settles true r dispatched h u = (refl, u)
  after_failure-Settles true r _ h u = cc
  after_failure-Settles false r routed h u = (refl, u)
  after_failure-Settles false r fallback h u = (refl, u)
  after_failure-Settles false r dispatched h u = (refl, u)
  after_failure-Settles false r _ h u = cc

-- The world and the catalog do what they are there for: both writes to disk succeed, and every
-- model's provider has a name.
pub record IsWorking (d : Setup) (w : World) : Type 0 where
  pub ledger : (i : ℕ) → w.ledger_works i ≡ true
  pub audit : (i : ℕ) → w.audit_works i ≡ true
  pub named :
      (m : String) (c : ModelCandidate)
      → Dict.get d.model_catalog m ≡ some c
      → str_eq c.provider "" ≡ false

-- No provider reports a negative number of tokens.
pub record IsCounted (w : World) : Type 0 where
  pub counts :
      (i : ℕ) (m : String) (messages : List ChatMessage) (most : ℕ) (response : ProviderResponse)
      → w.call i m messages most ≡ replied response
      → valid_counts response ≡ true

-- What happens elsewhere while the request waits leaves it uncharged, and its answer charges it.
pub record IsBookkeeping (w : World) (job : Job) (b : Books) : Type 0 where
  pub waits :
      (i : ℕ) (r : NexusRouter)
      → b.Uncharged (accounts r)
      → b.Uncharged (accounts (w.meanwhile i r))
  pub answers :
      (i : ℕ) (rationale provider : String) (response : ProviderResponse) (r : NexusRouter)
      → b.Uncharged (accounts r)
      → b.Charged
          (router_response (latency_of w i) job.strategy_name rationale job.request response)
          (accounts (
            audited w i job.request job.signals job.strategy_name rationale provider response (
              booked w i job.request job.signals job.strategy_name rationale provider response (
                credited w i job.request job.signals job.strategy_name rationale provider response
                  r))))

pub guardrails_accounts :
    (w : World) (i : ℕ) (request : RouterRequest) (signals : TaskSignals)
    (candidate : ModelCandidate) (P : Accounts → Type 0) (r : NexusRouter)
    → P (accounts r)
    → P (accounts (guardrails w i request signals candidate r).1)
unfolding guardrails Budget.assert_can_spend ◌>>=◌ continue zoom
guardrails_accounts w i request signals candidate P r u =
    let cap = r.budget_guardrail.cap + r.budget_guardrail.epsilon in
    let estimate = estimate_cost candidate signals.prompt_tokens_estimate request.max_tokens in
    elim (Bool-cases (ltb cap (Budget.spent r.budget_guardrail request.user_id + estimate))) [
      | inl over ↦ rw over u
      | inr fits ↦ rw fits u
    ]

module _ (d : Setup) (w : World) (works : IsWorking d w) (reports : IsCounted w) (job : Job)
    (b : Books) (books : IsBookkeeping w job b) where
  handle_failure-Settles :
      (i : ℕ) (last : Bool) (provider : String) (e : Error) (r : NexusRouter) (state : RequestState)
      → str_eq provider "" ≡ false
      → is_open state ≡ true
      → b.Uncharged (accounts r)
      → let (a, s) =
          handle_failure d w job i last provider e (record { router = r; current_state = state }) in
        Settles b last a s
  unfolding handle_failure zoom modify ◌>>=◌ continue Scoreboard.record_outcome mark_failure
  handle_failure-Settles i last provider e r state named h u =
      rw named (after_failure-Settles b last _ state h u)

  answer-Tries :
      (i : ℕ) (rationale : String) (candidate : ModelCandidate) (o : Outcome) (r : NexusRouter)
      → str_eq candidate.provider "" ≡ false
      → ((response : ProviderResponse) → o ≡ replied response → valid_counts response ≡ true)
      → b.Uncharged (accounts r)
      → let (a, s) =
          (answer_of o
              >>= respond w i job.request job.signals job.strategy_name rationale
                  candidate.provider)
            (record { router = r; current_state = dispatched }) in
        Tries b a s
  unfolding ◌>>=◌ continue answer_of pure raise
  answer-Tries i rationale candidate (replied response) r named fine u =
      rw
        (respond-dispatched w i job.request job.signals job.strategy_name rationale
          candidate.provider response r named (works.ledger i) (works.audit i) (fine response refl))
        (refl, books.answers i rationale candidate.provider response r u)
  answer-Tries i rationale candidate (raised failure) r named fine u = (refl, u)

  try_attempt-Tries :
      (i : ℕ) (candidate : ModelCandidate) (m : String) (r : NexusRouter) (state : RequestState)
      → str_eq candidate.provider "" ≡ false
      → is_waiting state ≡ true
      → b.Uncharged (accounts r)
      → let (a, s) =
          try_attempt d w i job.request job.signals job.strategy_name job.decision candidate m
            (record { router = r; current_state = state }) in
        Tries b a s
  unfolding try_attempt call_provider dispatch_from ◌>>=◌ continue modify zoom transition
      raise_unless gets enter_call leave_call
  try_attempt-Tries i candidate m r routed named h u =
      elim (Bool-cases (d.has_adapter candidate.provider)) [
        | inl has ↦
            rw has
              (answer-Tries i _ candidate _ _ named (reports.counts i m _ _) (books.waits i _ u))
        | inr lacks ↦ rw lacks (refl, u)
      ]
  try_attempt-Tries i candidate m r fallback named h u =
      elim (Bool-cases (d.has_adapter candidate.provider)) [
        | inl has ↦
            rw has
              (answer-Tries i _ candidate _ _ named (reports.counts i m _ _) (books.waits i _ u))
        | inr lacks ↦ rw lacks (refl, u)
      ]
  try_attempt-Tries i candidate m r _ named h u = cc

  answer_or_handle-Settles :
      (i : ℕ) (last : Bool) (provider : String) (a : Result RouterResponse) (s : Run)
      → str_eq provider "" ≡ false
      → Tries b a s
      → let (c, s') = answer_or_handle d w job i last provider a s in Settles b last c s'
  unfolding answer_or_handle pure
  answer_or_handle-Settles i last provider (ok response) s named h = h
  answer_or_handle-Settles i last provider (err e) s named h =
      handle_failure-Settles i last provider e s.router s.current_state named h.0 h.1

  guarded_attempt-Settles :
      (i : ℕ) (last : Bool) (m : String) (candidate : ModelCandidate) (a : Result (Unit {0}))
      (s : Run)
      → str_eq candidate.provider "" ≡ false
      → is_waiting s.current_state ≡ true
      → b.Uncharged (accounts s.router)
      → let (c, s') = guarded_attempt d w job i last m candidate a s in Settles b last c s'
  unfolding guarded_attempt catch
  guarded_attempt-Settles i last m candidate (err e) s named h u =
      after_skip-Settles b last s.router s.current_state h u
  guarded_attempt-Settles i last m candidate (ok _) s named h u =
      answer_or_handle-Settles i last candidate.provider _ _ named
        (try_attempt-Tries i candidate m s.router s.current_state named h u)

  pub one_attempt-Settles :
      (i : ℕ) (last : Bool) (m : String) (candidate : ModelCandidate) (s : Run)
      → Dict.get d.model_catalog m ≡ some candidate
      → is_waiting s.current_state ≡ true
      → b.Uncharged (accounts s.router)
      → let (c, s') = one_attempt d w job i last m s in Settles b last c s'
  unfolding one_attempt ◌>>=◌ continue or_raise pure catch zoom
  one_attempt-Settles i last m candidate s found h u = rw found (
      guarded_attempt-Settles i last m candidate _ _ (works.named m candidate found) h
        (guardrails_accounts w i job.request job.signals candidate b.Uncharged s.router u))
