-- ===== src/Engine/Outcomes.antt =====
-- What `complete` of router/engine.py promises to the caller and to the accounts.
use nexus_llm_router.Prelude.{
  ◌+◌, ◌≡◌, ◌⊎◌, inl, inr, ◌∙◌, refl, ap, ℕ, String, true, false, some, Result, ok, err,
  rate_limit_exceeded, routing_failed, [], ◌∷◌, ◌++◌, str_eq, if◌then◌else◌,
}
use nexus_llm_router.Lifecycle.{RequestState, responded, failed}
use nexus_llm_router.Schemas.{
  RouterRequest, RouterResponse, ProviderResponse, AuditRecord, StrategyName,
}
use nexus_llm_router.Budget
use nexus_llm_router.Budget.Caps.{spent-record_spend}
use nexus_llm_router.Engine.State.{NexusRouter, Setup, World, Run, Strategy, SpendRecord, logged}
use nexus_llm_router.Engine.Respond.{
  router_response, latency_of, mark_success, note_answer, note_spend, note_region, ledger_row,
  audit_record,
}
use nexus_llm_router.Engine.Answered.{credited, booked, audited}
use nexus_llm_router.Engine.Complete.{Job, complete}
use nexus_llm_router.Engine.Settled.{IsWorking, IsCounted, Books, Accounts, accounts}
use nexus_llm_router.Engine.Ended.{IsDecided, Ends, refused, job_of, complete-Ends}

-- The answer and the final state of a request that the limiter let in.
abbrev pub Answers : Result RouterResponse → RequestState → Type 0
Answers (ok response) state = state ≡ responded
Answers (err routing_failed) state = state ≡ failed
Answers (err _) state = false ≡ true

abbrev no_books : Books
no_books = record { Uncharged = λ a. Unit {0}; Charged = λ response a. Unit {0} }

Ends-Answers :
    (b : Books) (a : Result RouterResponse) (s : Run) → Ends b a s → Answers a s.current_state
Ends-Answers b (ok response) s h = h.0
Ends-Answers b (err routing_failed) s h = h.0
Ends-Answers b (err _) s h = cc

-- Every request ends in one of three ways: the rate limiter refuses it, and only the limiter has
-- changed; it is answered, and its state machine stands at `responded`; or `RoutingFailedError` is
-- raised, and the machine stands at `failed`. No `StateTransitionError` or other exception escapes.
-- The writes to disk succeed, no provider
-- reports a negative number of tokens, providers have names, and the strategies decide for models of the
-- catalog.
pub complete-Answers :
    (d : Setup) (w : World) (request : RouterRequest) (r : NexusRouter)
    → IsWorking d w
    → IsCounted w
    → IsDecided d
    → let (a, s) = complete d w request r in
      ((a ≡ err rate_limit_exceeded) × (s ≡ refused w request r)) ⊎ Answers a s.current_state
complete-Answers d w request r works reports decided =
    elim (complete-Ends d w works reports decided request no_books
      (λ decision. record {
        waits = λ i r u. tt;
        answers = λ i rationale provider response r u. tt;
      })
      (λ r u. tt) r tt) [
        | inl refusal ↦ inl refusal
        | inr ends ↦ inr (Ends-Answers no_books _ _ ends)
      ]

-- The accounts after one charge: one more row in the ledger, one more record in the audit log, and
-- the user's spend up by the cost.
pub record IsCharged (request : RouterRequest) (before : Accounts) (response : RouterResponse)
    (now : Accounts) : Type 0 where
  pub ledger :
      (row : SpendRecord) × (now.spend_ledger ≡ before.spend_ledger ++ row ∷ [])
      × (row.cost ≡ response.cost)
      × (row.request_id ≡ request.request_id)
  pub audit :
      (entry : AuditRecord) × (now.audit_log ≡ before.audit_log ++ entry ∷ [])
      × (entry.token_cost ≡ response.cost)
      × (entry.request_id ≡ request.request_id)
      × (entry.state ≡ responded)
  pub budget :
      (user : String)
      → Budget.spent now.budget user ≡ (
          if str_eq request.user_id user
          then Budget.spent before.budget request.user_id + response.cost
          else Budget.spent before.budget user)

-- What the accounts of a request are, by its answer.
abbrev pub Accounted : RouterRequest → Accounts → Result RouterResponse → Accounts → Type 0
Accounted request before (ok response) now = IsCharged request before response now
Accounted request before (err e) now = now ≡ before

abbrev books_of : RouterRequest → Accounts → Books
books_of request before = record {
  Uncharged = λ a. a ≡ before;
  Charged = λ response a. IsCharged request before response a;
}

answer-IsCharged :
    (w : World) (job : Job) (i : ℕ) (rationale provider : String) (response : ProviderResponse)
    (before : Accounts) (r : NexusRouter)
    → accounts r ≡ before
    → IsCharged job.request before
        (router_response (latency_of w i) job.strategy_name rationale job.request response)
        (accounts (
          audited w i job.request job.signals job.strategy_name rationale provider response (
            booked w i job.request job.signals job.strategy_name rationale provider response (
              credited w i job.request job.signals job.strategy_name rationale provider response
                r))))
unfolding audited booked credited mark_success note_answer note_spend note_region router_response
    ledger_row audit_record
answer-IsCharged w job i rationale provider response before r same = record {
  ledger = (
    ledger_row (w.clock i logged) provider job.request response,
    ap (λ a. a.spend_ledger ++ ledger_row (w.clock i logged) provider job.request response ∷ [])
        same,
    refl,
    refl,
  );
  audit = (
    audit_record (latency_of w i) job.strategy_name rationale provider job.request response
        responded,
    ap
        (λ a.
          a.audit_log
          ++ audit_record (latency_of w i) job.strategy_name rationale provider job.request response
              responded
            ∷ [])
        same,
    refl,
    refl,
    refl,
  );
  budget = λ user.
      rw (spent-record_spend r.budget_guardrail job.request.user_id user response.cost, ← same)
        refl;
}

-- What other requests do while this one waits, and what its strategy does, leaves the accounts alone.
pub record IsAlone (d : Setup) (w : World) : Type 0 where
  pub waiting : (i : ℕ) (r : NexusRouter) → accounts (w.meanwhile i r) ≡ accounts r
  pub choosing :
      (name : StrategyName) (strategy : Strategy)
      → d.strategies name ≡ some strategy
      → (request : RouterRequest) (r : NexusRouter)
      → accounts (strategy.choose request (d.analyze request) r).1 ≡ accounts r

Ends-Accounted :
    (request : RouterRequest) (before : Accounts) (a : Result RouterResponse) (s : Run)
    → Ends (books_of request before) a s
    → Accounted request before a (accounts s.router)
Ends-Accounted request before (ok response) s h = h.1
Ends-Accounted request before (err routing_failed) s h = h.1
Ends-Accounted request before (err _) s h = cc

refused-Accounted :
    (w : World) (request : RouterRequest) (r : NexusRouter) (a : Result RouterResponse) (s : Run)
    → a ≡ err rate_limit_exceeded
    → s ≡ refused w request r
    → Accounted request (accounts r) a (accounts s.router)
refused-Accounted w request r a s e h = rw (e, h) refl

-- Charged exactly once: an answered request has one row in the ledger, one record in the audit log
-- and its cost on the user's spend, however many providers failed before; a request that raises has
-- none of them. The writes to disk succeed, no provider
-- reports a negative number of tokens, providers have names, the strategies decide for models of
-- the catalog, and nothing else charges the accounts meanwhile.
pub complete-Accounted :
    (d : Setup) (w : World) (request : RouterRequest) (r : NexusRouter)
    → IsWorking d w
    → IsCounted w
    → IsDecided d
    → IsAlone d w
    → let (a, s) = complete d w request r in Accounted request (accounts r) a (accounts s.router)
complete-Accounted d w request r works reports decided alone =
    let before = accounts r in
    elim (complete-Ends d w works reports decided request (books_of request before)
      (λ decision. record {
        waits = λ i r' u. alone.waiting i r' ∙ u;
        answers = λ i rationale provider response r'.
            answer-IsCharged w (job_of d request (decided.found request).0 decision) i rationale
              provider response before r';
      })
      (λ r' u. alone.choosing _ _ (decided.found request).1 request r' ∙ u) r refl) [
        | inl (e, h) ↦ refused-Accounted w request r _ _ e h
        | inr ends ↦ Ends-Accounted request before _ _ ends
      ]
