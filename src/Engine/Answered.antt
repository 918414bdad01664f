-- ===== src/Engine/Answered.antt =====
-- `_respond` of router/engine.py where both writes to disk succeed: what it leaves in the router.
use nexus_llm_router.Prelude.{
  ℕ, ◌-◌, ◌≡◌, ◌∙◌, String, true, false, validation_error, ok, err, [], ◌∷◌, ◌++◌, str_eq,
}
use nexus_llm_router.Prelude.Int.{pos}
use nexus_llm_router.Prelude.Action.{◌>>=◌, pure, modify, zoom, gets, continue, raise_unless}
use nexus_llm_router.Lifecycle.{dispatched, responded, transition}
use nexus_llm_router.Schemas.{
  RouterRequest, TaskSignals, ProviderResponse, StrategyName, valid_counts,
}
use nexus_llm_router.Scoreboard
use nexus_llm_router.Stats.Windows.Cascade
use nexus_llm_router.Stats.Windows.TokenRpm
use nexus_llm_router.Engine.State.{
  NexusRouter, World, begun, reset_at, scored, logged, charged, family_at, hourly_at, tokens_at,
}
use nexus_llm_router.Engine.Request.{tenant_inflight_key}
use nexus_llm_router.Engine.Runs.{run_bind, run_raise_unless, run_stopped}
use nexus_llm_router.Engine.Respond.{
  respond, credit, book, write_audit, latency_of, mark_success, note_answer, note_spend,
  note_region, ledger_row, audit_record, router_response,
}

module _ (w : World) (i : ℕ) (request : RouterRequest) (signals : TaskSignals) (name : StrategyName)
    (rationale provider : String) (response : ProviderResponse) where
  -- The router before the ledger is written.
  unfoldable pub credited : NexusRouter → NexusRouter
  credited r =
      let r' = mark_success (w.clock i reset_at) provider r in
      note_answer (latency_of w i) provider request response (record r' {
        scoreboard =
            (Scoreboard.record_outcome provider true (pos (w.clock i scored - w.clock i begun))
              r'.scoreboard).1;
      })

  -- The router after the ledger and the windows.
  unfoldable pub booked : NexusRouter → NexusRouter
  booked r =
      let r' = note_spend (w.clock i family_at) (w.clock i hourly_at) provider response (record r {
        spend_ledger =
            r.spend_ledger ++ ledger_row (w.clock i logged) provider request response ∷ [];
        tenant_cascade =
            (Cascade.record_spend (tenant_inflight_key request) (pos response.cost)
              (w.clock i charged) r.tenant_cascade).1;
      }) in
      note_region request response (record r' {
        token_window =
            (TokenRpm.record_tokens provider (pos signals.prompt_tokens_estimate)
              (w.clock i tokens_at) r'.token_window).1;
      })

  unfoldable pub audited : NexusRouter → NexusRouter
  audited r = record r {
    audit_log =
        r.audit_log
        ++ audit_record (latency_of w i) name rationale provider request response responded ∷ [];
  }

  credit-dispatched :
      (r : NexusRouter)
      → str_eq provider "" ≡ false
      → credit w i request provider response (record { router = r; current_state = dispatched })
        ≡ (ok tt, record { router = credited r; current_state = responded })
  unfolding credit credited ◌>>=◌ continue modify zoom transition Scoreboard.record_outcome
  credit-dispatched r named = rw named

  book-responded :
      (r : NexusRouter)
      → w.ledger_works i ≡ true
      → book w i request signals provider response
          (record { router = r; current_state = responded })
        ≡ (ok tt, record { router = booked r; current_state = responded })
  unfolding book booked ◌>>=◌ continue modify zoom raise_unless Cascade.record_spend
      TokenRpm.record_tokens
  book-responded r ledger = rw ledger

  write_audit-responded :
      (r : NexusRouter)
      → w.audit_works i ≡ true
      → write_audit w i request name rationale provider response
          (record { router = r; current_state = responded })
        ≡ (ok tt, record { router = audited r; current_state = responded })
  unfolding write_audit audited ◌>>=◌ continue modify raise_unless gets
  write_audit-responded r audit = rw audit

  pub respond-dispatched :
      (r : NexusRouter)
      → str_eq provider "" ≡ false
      → w.ledger_works i ≡ true
      → w.audit_works i ≡ true
      → valid_counts response ≡ true
      → respond w i request signals name rationale provider response
          (record { router = r; current_state = dispatched })
        ≡ (
          ok (router_response (latency_of w i) name rationale request response),
          record { router = audited (booked (credited r)); current_state = responded },
        )
  unfolding respond pure
  respond-dispatched r named ledger audit fine =
      run_bind _ _ _ _ tt (credit-dispatched r named)
      ∙ (run_bind _ _ _ _ tt (book-responded (credited r) ledger)
          ∙ (run_bind _ _ _ _ tt (run_raise_unless _ validation_error _ fine)
              ∙ run_bind _ _ _ _ tt (write_audit-responded (booked (credited r)) audit)))

  -- A negative count: the ledger and the spend are written, and the construction of the answer raises.
  pub respond-uncounted :
      (r : NexusRouter)
      → str_eq provider "" ≡ false
      → w.ledger_works i ≡ true
      → valid_counts response ≡ false
      → respond w i request signals name rationale provider response
          (record { router = r; current_state = dispatched })
        ≡ (err validation_error, record { router = booked (credited r); current_state = responded })
  unfolding respond
  respond-uncounted r named ledger negative =
      run_bind _ _ _ _ tt (credit-dispatched r named)
      ∙ (run_bind _ _ _ _ tt (book-responded (credited r) ledger)
          ∙ run_stopped _ validation_error _ _ negative)
