-- ===== src/Safety/Concurrency/Slots.antt =====
-- The slots of the tenants over sequences of calls.
use nexus_llm_router.Prelude.{
  ℕ, ◌+◌, ◌-◌, ◌≤◌, ◌≡◌, String, true, List, [], ◌∷◌, ok, if◌then◌else◌, str_eq, arith, eq_iff,
  Option-cases, inl, inr,
}
use nexus_llm_router.Prelude.Dict
use nexus_llm_router.Prelude.Dict.{
  get_or-put, get_or-remove, get-eq-none→get_or, get-eq-some→get_or,
}
use nexus_llm_router.Safety.Concurrency.{
  TenantConcurrencySlotGuard, TenantConcurrencySnapshot, acquire, release,
}

abbrev pub in_flight : TenantConcurrencySlotGuard → String → ℕ
in_flight g tenant = Dict.get_or g.inflight tenant 0

-- A call that changes the slots.
pub data Call : Type 0 where
  acquired released : String → Call

unfoldable pub apply : Call → TenantConcurrencySlotGuard → TenantConcurrencySlotGuard
apply (acquired tenant) g = (acquire tenant g).1
apply (released tenant) g = (release tenant g).1

unfoldable pub run : List Call → TenantConcurrencySlotGuard → TenantConcurrencySlotGuard
run [] g = g
run (c ∷ cs) g = run cs (apply c g)

-- No tenant holds more slots than there are.
abbrev pub IsWithinSlots : TenantConcurrencySlotGuard → Type 0
IsWithinSlots g = (tenant : String) → in_flight g tenant ≤ g.max

in_flight-release :
    (g : TenantConcurrencySlotGuard) (s t : String)
    → in_flight (release s g).1 t ≡ (
        if str_eq s ""
        then in_flight g t
        else if str_eq s t
        then in_flight g s - 1
        else in_flight g t)
unfolding release
in_flight-release g s t = elim (Option-cases (Dict.get g.inflight s)) [
  | inl e ↦ ground (arith, e, eq_iff s t, get-eq-none→get_or g.inflight s 0 e)
  | inr (n, e) ↦ ground (
    arith,
    e,
    eq_iff s t,
    get-eq-some→get_or g.inflight s n 0 e,
    get_or-put g.inflight s t (n - 1) 0,
    get_or-remove g.inflight s t 0,
  )
]

apply-settings :
    (c : Call) (g : TenantConcurrencySlotGuard)
    → ((apply c g).max ≡ g.max) × ((apply c g).hard_gate ≡ g.hard_gate)
unfolding apply acquire release
apply-settings (acquired tenant) g = ground arith
apply-settings (released tenant) g = ground arith

apply-IsWithinSlots :
    (c : Call) (g : TenantConcurrencySlotGuard)
    → g.hard_gate ≡ true
    → IsWithinSlots g
    → IsWithinSlots (apply c g)
unfolding apply acquire
apply-IsWithinSlots (acquired s) g hard within t = ground (
  arith,
  hard,
  within s,
  within t,
  eq_iff s t,
  get_or-put g.inflight s t (Dict.get_or g.inflight s 0 + 1) 0,
)
apply-IsWithinSlots (released s) g hard within t =
    ground (arith, within s, within t, in_flight-release g s t, apply-settings (released s) g)

-- With the hard gate no tenant ever holds more than `max_slots` slots: where none does, none does after
-- any calls of `acquire` and `release`, in any order and for any tenants.
pub run-IsWithinSlots :
    (cs : List Call) (g : TenantConcurrencySlotGuard)
    → g.hard_gate ≡ true
    → IsWithinSlots g
    → IsWithinSlots (run cs g)
unfolding run
run-IsWithinSlots [] g hard within = within
run-IsWithinSlots (c ∷ cs) g hard within =
    run-IsWithinSlots cs (apply c g) (ground (arith, apply-settings c g))
      (apply-IsWithinSlots c g hard within)

-- A slot that was acquired is given back: after an `acquire` that returns and a `release` of the same
-- tenant, every tenant holds as many slots as before.
pub release-acquire :
    (g : TenantConcurrencySlotGuard) (s t : String) (taken : TenantConcurrencySnapshot)
    → (acquire s g).0 ≡ ok taken
    → in_flight (release s (acquire s g).1).1 t ≡ in_flight g t
unfolding acquire
release-acquire g s t taken h = ground (
  arith,
  h,
  eq_iff s t,
  eq_iff s s,
  in_flight-release (acquire s g).1 s t,
  get_or-put g.inflight s t (Dict.get_or g.inflight s 0 + 1) 0,
  get_or-put g.inflight s s (Dict.get_or g.inflight s 0 + 1) 0,
)
