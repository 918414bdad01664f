-- ===== src/Engine/Request.antt =====
-- What the steps of `NexusRouter` share: changing the router, the keys and labels of a request, and
-- the guardrails.
use nexus_llm_router.Prelude.{
  ℕ, String, Option, none, some, Exec, List, [], ◌∷◌, ◌==◌, if◌then◌else◌, str_eq,
}
use nexus_llm_router.Prelude.Text.{strip, decimal}
use nexus_llm_router.Prelude.Action.{modify, zoom, ◌>>◌}
use Prim.Native.String
use nexus_llm_router.Prelude.Dict
use nexus_llm_router.Lifecycle.{RequestState, transition}
use nexus_llm_router.Schemas.{RouterRequest, TaskSignals, ModelCandidate, estimate_cost}
use nexus_llm_router.Engine.State.{NexusRouter, World, Run, guarded}
use nexus_llm_router.Breaker
use nexus_llm_router.Budget
use nexus_llm_router.Stats.Regions

-- `state_machine.transition(next_state)`
abbrev pub move : RequestState → Exec Run (Unit {0})
move next_state =
    zoom (λ s. s.current_state) (λ m s. record s { current_state = m }) (transition next_state)

abbrev pub in_router : {A : Type 0} → Exec NexusRouter A → Exec Run A
in_router = zoom (λ s. s.router) (λ r s. record s { router = r })

abbrev pub change : (NexusRouter → NexusRouter) → Exec Run (Unit {0})
change f = modify (λ s. record s { router = f s.router })

-- The first of the metadata values that is not blank.
abbrev first_named : List String → Dict.Dict String → Option String
first_named [] metadata = none
first_named (key ∷ keys) metadata = elim (Dict.get metadata key) [
  | none ↦ first_named keys metadata
  | some value ↦ if str_eq (strip value) "" then first_named keys metadata else some value
]

-- `_tenant_inflight_key`, and `TenantBudgetCascadeStrategy._tenant_key`, which is the same code
unfoldable pub tenant_inflight_key : RouterRequest → String
unfolding strip
tenant_inflight_key request =
    elim (first_named ("tenant_id" ∷ "user_id" ∷ "sticky_key" ∷ []) request.metadata) [
      | some value ↦ value
      | none ↦ if str_eq request.user_id "anonymous" then request.session_id else request.user_id
    ]

-- `_rationale`
unfoldable pub rationale_text : String → String → ℕ → String
unfolding decimal
rationale_text base_rationale model_name attempt_index =
    if attempt_index == 0
    then base_rationale
    else String.◌++◌ base_rationale (
        String.◌++◌ "; fallback attempt "
          (String.◌++◌ (decimal attempt_index) (String.◌++◌ " succeeded with " model_name)))

-- `(request.region or "global").strip().lower()`, which the region counters normalise
unfoldable pub region_label : RouterRequest → String
region_label request = elim request.region [
  | none ↦ Regions.normalized "global"
  | some region ↦ Regions.normalized (if str_eq region "" then "global" else region)
]

-- The first `try` of an attempt: the budget, then the circuit.
unfoldable pub guardrails :
    World → ℕ → RouterRequest → TaskSignals → ModelCandidate → Exec NexusRouter (Unit {0})
guardrails w i request signals candidate = do
  zoom (λ r. r.budget_guardrail) (λ b r. record r { budget_guardrail = b })
      (Budget.assert_can_spend request.user_id
        (estimate_cost candidate signals.prompt_tokens_estimate request.max_tokens))
  zoom (λ r. r.circuit_breakers) (λ b r. record r { circuit_breakers = b })
      (Breaker.assert_available candidate.provider (w.clock i guarded))
