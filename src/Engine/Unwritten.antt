-- ===== src/Engine/Unwritten.antt =====
-- Exceptions inside `_respond` of router/engine.py, after a provider has answered.
use nexus_llm_router.Prelude.{
  ℕ, suc, ◌+◌, ◌≡◌, ◌∙◌, refl, ap, String, true, false, some, ok, err, state_transition, List, [],
  ◌∷◌, ◌++◌, str_eq, if◌then◌else◌,
}
use nexus_llm_router.Prelude.Dict
use nexus_llm_router.Prelude.Action.{
  ◌>>=◌, pure, raise, modify, zoom, gets, or_raise, continue, catch, raise_unless,
}
use nexus_llm_router.Lifecycle.{routed, dispatched, transition}
use nexus_llm_router.Schemas.{RouterRequest, ModelCandidate, ProviderResponse, valid_counts}
use nexus_llm_router.Scoreboard
use nexus_llm_router.Budget
use nexus_llm_router.Budget.Caps.{spent-record_spend}
use nexus_llm_router.Engine.State.{NexusRouter, Setup, World, Outcome, SpendRecord, replied, logged}
use nexus_llm_router.Engine.Request.{guardrails}
use nexus_llm_router.Engine.Order.Known.{Known}
use nexus_llm_router.Engine.Respond.{
  respond, credit, book, mark_success, note_answer, note_spend, note_region, ledger_row,
}
use nexus_llm_router.Engine.Answered.{credited, booked, respond-uncounted}
use nexus_llm_router.Engine.Attempt.{
  try_attempt, dispatch_from, call_provider, answer_of, enter_call, leave_call,
}
use nexus_llm_router.Engine.Settled.{Accounts, accounts, guardrails_accounts}
use nexus_llm_router.Engine.Complete.{Job, guarded_attempt, one_attempt, attempt_all}
use nexus_llm_router.Engine.Stuck.{
  Repeats, Fails, Raises, handle-Repeats, loop-Raises, attempt_all-Raises,
}

-- A predicate of the accounts that other requests keep while this one waits.
abbrev pub Waits : World → (Accounts → Type 0) → Type 0
Waits w Q = (i : ℕ) (r : NexusRouter) → Q (accounts r) → Q (accounts (w.meanwhile i r))

-- Every provider of the catalog has a name.
abbrev pub Named : Setup → Type 0
Named d =
    (n : String) (c : ModelCandidate)
    → Dict.get d.model_catalog n ≡ some c
    → str_eq c.provider "" ≡ false

-- The first attempt is answered and `_respond` raises: `P` holds of the accounts before, and `Q` after.
module _ (d : Setup) (w : World) (job : Job) (P Q : Accounts → Type 0) (before : Waits w P)
    (after : Waits w Q) (i : ℕ) (m : String) (candidate : ModelCandidate)
    (fails : (rationale : String) (r : NexusRouter)
      → P (accounts r)
      → let (a, s) =
          (answer_of (w.call i m (d.scrub job.request.messages) job.request.max_tokens)
              >>= respond w i job.request job.signals job.strategy_name rationale
                  candidate.provider)
            (record { router = r; current_state = dispatched }) in
        Fails Q a s)
    (named : Named d) (found : Dict.get d.model_catalog m ≡ some candidate)
    (adapted : d.has_adapter candidate.provider ≡ true) where
  lost_try :
      (r : NexusRouter)
      → P (accounts r)
      → let (a, s) =
          try_attempt d w i job.request job.signals job.strategy_name job.decision candidate m
            (record { router = r; current_state = routed }) in
        Fails Q a s
  unfolding try_attempt call_provider dispatch_from ◌>>=◌ continue modify raise_unless gets pure
      zoom transition enter_call leave_call
  lost_try r p = rw adapted (fails _ _ (before i _ p))

  lost_attempt :
      (r : NexusRouter)
      → (guardrails w i job.request job.signals candidate r).0 ≡ ok tt
      → P (accounts r)
      → let (a, s) =
          one_attempt d w job i false m (record { router = r; current_state = routed }) in
        Repeats Q false a s
  unfolding one_attempt ◌>>=◌ continue or_raise pure catch zoom guarded_attempt
  lost_attempt r passed p =
      rw (found, passed)
        (handle-Repeats d w job Q after i false candidate.provider _ _ (named m candidate found)
          (lost_try _ (guardrails_accounts w i job.request job.signals candidate P r p)))

  lost_loop :
      (n : String) (ms : List String) (r : NexusRouter)
      → (guardrails w i job.request job.signals candidate r).0 ≡ ok tt
      → P (accounts r)
      → Known d.model_catalog (n ∷ ms)
      → Raises d w job Q after
          (attempt_all d w job i (m ∷ n ∷ ms) (record { router = r; current_state = routed }))
  unfolding attempt_all ◌>>=◌
  lost_loop n ms r passed p known =
      loop-Raises d w job Q after _ (attempt_all d w job (suc i) (n ∷ ms)) _
        (lost_attempt r passed p)
        (λ r' q. attempt_all-Raises d w job Q after (suc i) n ms r' named known q)

-- What an answer that is lost leaves: a row in the ledger and the cost on the user's spend, and no
-- record in the audit log.
pub record IsLost (request : RouterRequest) (before : Accounts) (response : ProviderResponse)
    (now : Accounts) : Type 0 where
  pub ledger :
      (row : SpendRecord) × (now.spend_ledger ≡ before.spend_ledger ++ row ∷ [])
      × (row.cost ≡ response.cost)
      × (row.request_id ≡ request.request_id)
  pub audit : now.audit_log ≡ before.audit_log
  pub budget :
      (user : String)
      → Budget.spent now.budget user ≡ (
          if str_eq request.user_id user
          then Budget.spent before.budget request.user_id + response.cost
          else Budget.spent before.budget user)

module _ (d : Setup) (w : World) (job : Job) where
  unwritten-Fails :
      (i : ℕ) (rationale provider : String) (o : Outcome) (response : ProviderResponse)
      (r : NexusRouter)
      → str_eq provider "" ≡ false
      → w.ledger_works i ≡ false
      → o ≡ replied response
      → let (a, s) =
          (answer_of o >>= respond w i job.request job.signals job.strategy_name rationale provider)
            (record { router = r; current_state = dispatched }) in
        Fails (λ a. Unit {0}) a s
  unfolding ◌>>=◌ continue answer_of pure raise respond credit book zoom modify transition
      raise_unless Scoreboard.record_outcome
  unwritten-Fails i rationale provider o response r named broken answered =
      rw (answered, named, broken) (refl, tt)

  booked-IsLost :
      (i : ℕ) (rationale provider : String) (response : ProviderResponse) (before : Accounts)
      (r : NexusRouter)
      → accounts r ≡ before
      → IsLost job.request before response (
          accounts (
            booked w i job.request job.signals job.strategy_name rationale provider response (
              credited w i job.request job.signals job.strategy_name rationale provider response
                r)))
  unfolding booked credited mark_success note_answer note_spend note_region ledger_row
  booked-IsLost i rationale provider response before r same = record {
    ledger = (
      ledger_row (w.clock i logged) provider job.request response,
      ap (λ a. a.spend_ledger ++ ledger_row (w.clock i logged) provider job.request response ∷ [])
          same,
      refl,
      refl,
    );
    audit = ap (λ a. a.audit_log) same;
    budget = λ user.
        rw (spent-record_spend r.budget_guardrail job.request.user_id user response.cost, ← same)
          refl;
  }

  uncounted-Fails :
      (i : ℕ) (rationale provider : String) (o : Outcome) (response : ProviderResponse)
      (before : Accounts) (r : NexusRouter)
      → str_eq provider "" ≡ false
      → w.ledger_works i ≡ true
      → valid_counts response ≡ false
      → o ≡ replied response
      → accounts r ≡ before
      → let (a, s) =
          (answer_of o >>= respond w i job.request job.signals job.strategy_name rationale provider)
            (record { router = r; current_state = dispatched }) in
        Fails (IsLost job.request before response) a s
  unfolding ◌>>=◌ continue answer_of pure
  uncounted-Fails i rationale provider o response before r named works negative answered same =
      rw
        (
          answered,
          respond-uncounted w i job.request job.signals job.strategy_name rationale provider
              response r named works negative,
        )
        (refl, booked-IsLost i rationale provider response before r same)

  module _ (i : ℕ) (m : String) (candidate : ModelCandidate) (response : ProviderResponse)
      (r : NexusRouter)
      (named : (n : String) (c : ModelCandidate)
        → Dict.get d.model_catalog n ≡ some c
        → str_eq c.provider "" ≡ false)
      (found : Dict.get d.model_catalog m ≡ some candidate)
      (passed : (guardrails w i job.request job.signals candidate r).0 ≡ ok tt)
      (adapted : d.has_adapter candidate.provider ≡ true)
      (answered : w.call i m (d.scrub job.request.messages) job.request.max_tokens
        ≡ replied response) where
    -- A provider has answered the first attempt and the write to the spend ledger fails: whatever the
    -- further providers answer, the loop raises `StateTransitionError`, and the caller gets neither
    -- the answer nor `RoutingFailedError`.
    pub unwritten_answer :
        (broken : w.ledger_works i ≡ false) (n : String) (ms : List String)
        → Known d.model_catalog (n ∷ ms)
        → (attempt_all d w job i (m ∷ n ∷ ms) (record { router = r; current_state = routed })).0
          ≡ err state_transition
    unwritten_answer broken n ms known =
        (lost_loop d w job (λ a. Unit {0}) (λ a. Unit {0}) (λ j s u. tt) (λ j s u. tt) i m candidate
          (λ rationale s u.
            unwritten-Fails i rationale candidate.provider _ response s (named m candidate found)
              broken answered)
          named found adapted n ms r passed tt known).0

    -- A provider has answered the first attempt with a negative number of tokens and the write to the
    -- ledger succeeds: whatever the further providers answer, the loop raises `StateTransitionError`,
    -- and yet the answer is charged: the ledger has one more row and the user's spend is up by the
    -- cost, while the audit log has no record of it. The attempt passes its guardrails, its provider has
    -- an adapter, providers have names, at least one further model is tried and all are of the catalog,
    -- and nothing else charges the accounts meanwhile.
    pub uncounted_answer :
        (works : w.ledger_works i ≡ true) (negative : valid_counts response ≡ false)
        (alone : (j : ℕ) (s : NexusRouter) → accounts (w.meanwhile j s) ≡ accounts s) (n : String)
        (ms : List String)
        → Known d.model_catalog (n ∷ ms)
        → let (a, s) =
            attempt_all d w job i (m ∷ n ∷ ms) (record { router = r; current_state = routed }) in
          (a ≡ err state_transition) × IsLost job.request (accounts r) response (accounts s.router)
    uncounted_answer works negative alone n ms known =
        lost_loop d w job (λ a. a ≡ accounts r) (IsLost job.request (accounts r) response)
          (λ j s h. alone j s ∙ h) (λ j s h. rw (alone j s) h) i m candidate
          (λ rationale s same.
            uncounted-Fails i rationale candidate.provider _ response (accounts r) s
              (named m candidate found) works negative answered same)
          named found adapted n ms r passed refl known
