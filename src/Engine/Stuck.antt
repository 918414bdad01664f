-- ===== src/Engine/Stuck.antt =====
-- The attempts of `complete` of router/engine.py that start after an exception inside `_respond`: the
-- machine stands at `responded`, which no transition leaves.
use nexus_llm_router.Prelude.{
  ℕ, suc, ◌≡◌, refl, String, Bool, true, false, Option, none, some, Result, Exec, ok, err,
  state_transition, List, [], ◌∷◌, str_eq, Bool-cases, inl, inr,
}
use nexus_llm_router.Prelude.Dict
use nexus_llm_router.Prelude.Action.{
  ◌>>=◌, pure, raise, modify, zoom, gets, or_raise, continue, catch, raise_unless,
}
use nexus_llm_router.Lifecycle.{responded, transition}
use nexus_llm_router.Schemas.{ModelCandidate, RouterResponse}
use nexus_llm_router.Scoreboard
use nexus_llm_router.Engine.State.{NexusRouter, Setup, World, Run, Outcome, replied, raised}
use nexus_llm_router.Engine.Order.Known.{Known}
use nexus_llm_router.Engine.Respond.{respond, credit, mark_success}
use nexus_llm_router.Engine.Attempt.{
  try_attempt, dispatch_from, call_provider, answer_of, enter_call, leave_call, mark_failure,
}
use nexus_llm_router.Engine.Settled.{Accounts, accounts, guardrails_accounts}
use nexus_llm_router.Engine.Complete.{
  Job, after_skip, after_failure, fall_back_from, handle_failure, answer_or_handle, guarded_attempt,
  one_attempt, finish_or_go_on, attempt_all,
}

-- How an attempt ends that starts from `responded`.
-- The accounts satisfy `Q` as before.
abbrev pub Repeats : (Accounts → Type 0) → Bool → Result (Option RouterResponse) → Run → Type 0
Repeats Q true a s = (a ≡ err state_transition) × Q (accounts s.router)
Repeats Q false a s = (a ≡ ok none) × ((s.current_state ≡ responded) × Q (accounts s.router))

-- How its second `try` ends.
abbrev pub Fails : (Accounts → Type 0) → Result RouterResponse → Run → Type 0
Fails Q (ok response) s = false ≡ true
Fails Q (err e) s = (s.current_state ≡ responded) × Q (accounts s.router)

module _ (d : Setup) (w : World) (job : Job) (Q : Accounts → Type 0)
    (waits : (i : ℕ) (r : NexusRouter) → Q (accounts r) → Q (accounts (w.meanwhile i r))) where
  after_skip-Repeats :
      (last : Bool) (r : NexusRouter)
      → Q (accounts r)
      → let (a, s) = after_skip last (record { router = r; current_state = responded }) in
        Repeats Q last a s
  unfolding after_skip zoom ◌>>=◌ continue transition pure
  after_skip-Repeats true r q = (refl, q)
  after_skip-Repeats false r q = (refl, (refl, q))

  after_failure-Repeats :
      (last : Bool) (r : NexusRouter)
      → Q (accounts r)
      → let (a, s) = after_failure last (record { router = r; current_state = responded }) in
        Repeats Q last a s
  unfolding after_failure fall_back_from zoom ◌>>=◌ continue transition pure gets
  after_failure-Repeats true r q = (refl, q)
  after_failure-Repeats false r q = (refl, (refl, q))

  answer-Fails :
      (i : ℕ) (rationale provider : String) (o : Outcome) (r : NexusRouter)
      → Q (accounts r)
      → let (a, s) =
          (answer_of o >>= respond w i job.request job.signals job.strategy_name rationale provider)
            (record { router = r; current_state = responded }) in
        Fails Q a s
  unfolding ◌>>=◌ continue answer_of pure raise respond credit zoom modify transition mark_success
  answer-Fails i rationale provider (replied response) r q = (refl, q)
  answer-Fails i rationale provider (raised failure) r q = (refl, q)

  try_attempt-Fails :
      (i : ℕ) (candidate : ModelCandidate) (m : String) (r : NexusRouter)
      → Q (accounts r)
      → let (a, s) =
          try_attempt d w i job.request job.signals job.strategy_name job.decision candidate m
            (record { router = r; current_state = responded }) in
        Fails Q a s
  unfolding try_attempt call_provider dispatch_from ◌>>=◌ continue modify raise_unless gets pure
      enter_call leave_call
  try_attempt-Fails i candidate m r q = elim (Bool-cases (d.has_adapter candidate.provider)) [
    | inl has ↦ rw has (answer-Fails i _ candidate.provider _ _ (waits i _ q))
    | inr lacks ↦ rw lacks (refl, q)
  ]

  pub handle-Repeats :
      (i : ℕ) (last : Bool) (provider : String) (a : Result RouterResponse) (s : Run)
      → str_eq provider "" ≡ false
      → Fails Q a s
      → let (b, s') = answer_or_handle d w job i last provider a s in Repeats Q last b s'
  unfolding answer_or_handle handle_failure zoom modify ◌>>=◌ continue Scoreboard.record_outcome
      mark_failure
  handle-Repeats i last provider (ok response) s named h = cc
  handle-Repeats i last provider (err e) s named h =
      rw (named, h.0) (after_failure-Repeats last _ h.1)

  guarded_attempt-Repeats :
      (i : ℕ) (last : Bool) (m : String) (candidate : ModelCandidate) (a : Result (Unit {0}))
      (r : NexusRouter)
      → str_eq candidate.provider "" ≡ false
      → Q (accounts r)
      → let (b, s') =
          guarded_attempt d w job i last m candidate a
            (record { router = r; current_state = responded }) in
        Repeats Q last b s'
  unfolding guarded_attempt catch
  guarded_attempt-Repeats i last m candidate (err e) r named q = after_skip-Repeats last r q
  guarded_attempt-Repeats i last m candidate (ok _) r named q =
      handle-Repeats i last candidate.provider _ _ named (try_attempt-Fails i candidate m r q)

  one_attempt-Repeats :
      (i : ℕ) (last : Bool) (m : String) (candidate : ModelCandidate) (r : NexusRouter)
      → Dict.get d.model_catalog m ≡ some candidate
      → str_eq candidate.provider "" ≡ false
      → Q (accounts r)
      → let (b, s') =
          one_attempt d w job i last m (record { router = r; current_state = responded }) in
        Repeats Q last b s'
  unfolding one_attempt ◌>>=◌ continue or_raise pure catch zoom
  one_attempt-Repeats i last m candidate r found named q = rw found (
      guarded_attempt-Repeats i last m candidate _ _ named
        (guardrails_accounts w i job.request job.signals candidate Q r q))

  -- The loop ends with `StateTransitionError`.
  abbrev pub Raises : Result RouterResponse × Run → Type 0
  Raises (a, s) = (a ≡ err state_transition) × Q (accounts s.router)

  pub loop-Raises :
      (answer : Result (Option RouterResponse)) (rest : Exec Run RouterResponse) (s : Run)
      → Repeats Q false answer s
      → ((r : NexusRouter)
          → Q (accounts r)
          → Raises (rest (record { router = r; current_state = responded })))
      → Raises (continue answer (λ a. finish_or_go_on d w job a rest) s)
  unfolding continue finish_or_go_on
  loop-Raises answer rest s h go = rw (h.0, continue, h.1.0) (go s.router h.1.1)

  loop_last-Raises :
      (answer : Result (Option RouterResponse)) (rest : Exec Run RouterResponse) (s : Run)
      → Repeats Q true answer s
      → Raises (continue answer (λ a. finish_or_go_on d w job a rest) s)
  unfolding continue
  loop_last-Raises answer rest s h = rw h.0 (refl, h.1)

  -- The whole loop from `responded`.
  pub attempt_all-Raises :
      (i : ℕ) (m : String) (ms : List String) (r : NexusRouter)
      → ((n : String) (c : ModelCandidate)
          → Dict.get d.model_catalog n ≡ some c
          → str_eq c.provider "" ≡ false)
      → Known d.model_catalog (m ∷ ms)
      → Q (accounts r)
      → Raises (attempt_all d w job i (m ∷ ms) (record { router = r; current_state = responded }))
  unfolding attempt_all ◌>>=◌
  attempt_all-Raises i m [] r named known q =
      loop_last-Raises _ _ _
        (one_attempt-Repeats i true m known.0.0 r known.0.1 (named m known.0.0 known.0.1) q)
  attempt_all-Raises i m (n ∷ ms) r named known q =
      loop-Raises _ (attempt_all d w job (suc i) (n ∷ ms)) _
        (one_attempt-Repeats i false m known.0.0 r known.0.1 (named m known.0.0 known.0.1) q)
        (λ r' q'. attempt_all-Raises (suc i) n ms r' named known.1 q')
