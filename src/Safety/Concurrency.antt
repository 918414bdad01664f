-- ===== src/Safety/Concurrency.antt =====
-- safety/tenant_concurrency.py: `TenantConcurrencySlotGuard`. The lock of the class makes each method
-- one step. The ratio is a fraction, and `advisory`, a text for people, is left out.
pub mod Slots
use nexus_llm_router.Prelude.{
  ℕ, ◌+◌, ◌-◌, ◌*◌, String, Bool, true, false, ◌&&◌, Option, none, some, Result, Exec, ok, err,
  value_error, concurrency_exceeded, [], leb, ltb, ◌==◌, if◌then◌else◌, str_eq,
}
use nexus_llm_router.Prelude.Int.{ℤ, pos, pos_part, ltb_ℤ}
use nexus_llm_router.Prelude.Ratio.{Ratio, zero_ratio, one, ltb_ratio}
use nexus_llm_router.Prelude.Dict
use nexus_llm_router.Prelude.Dict.{Dict}

pub data SlotBand : Type 0 where
  band_ok near full : SlotBand

pub record TenantConcurrencySnapshot : Type 0 where
  pub tenant_id : String
  pub in_flight : ℕ
  pub max_slots : ℕ
  pub band : SlotBand
  pub remaining : ℕ
  pub blocked : Bool

pub record TenantConcurrencySlotGuard : Type 0 where
  pub max : ℕ
  pub near_ratio : Ratio
  pub hard_gate : Bool
  pub inflight : Dict ℕ

unfoldable pub init : ℤ → Ratio → Bool → Result TenantConcurrencySlotGuard
init max_slots near_ratio hard_gate =
    if ltb_ℤ max_slots (pos 1)
    then err value_error
    else if ltb_ratio zero_ratio near_ratio && ltb_ratio near_ratio one
    then ok (record {
      max = pos_part max_slots;
      near_ratio = near_ratio;
      hard_gate = hard_gate;
      inflight = [];
    })
    else err value_error

-- `_snap`
unfoldable pub snap : TenantConcurrencySlotGuard → String → ℕ → TenantConcurrencySnapshot
snap g tenant n = record {
  tenant_id = tenant;
  in_flight = n;
  max_slots = g.max;
  band =
      if leb g.max n
      then full
      else if leb (g.near_ratio.num * g.max) (n * g.near_ratio.den)
      then near
      else band_ok;
  remaining = g.max - n;
  blocked = leb g.max n;
}

unfoldable pub acquire : String → Exec TenantConcurrencySlotGuard TenantConcurrencySnapshot
unfolding snap
acquire tenant g =
    if str_eq tenant ""
    then (err value_error, g)
    else let n = Dict.get_or g.inflight tenant 0 in
      if g.hard_gate && leb g.max n
      then (err concurrency_exceeded, g)
      else (ok (snap g tenant (n + 1)), record g { inflight = Dict.put g.inflight tenant (n + 1) })

unfoldable pub release : String → Exec TenantConcurrencySlotGuard (Option TenantConcurrencySnapshot)
unfolding snap
release tenant g =
    if str_eq tenant "" then (err value_error, g) else elim (Dict.get g.inflight tenant) [
      | none ↦ (ok none, g)
      | some held ↦
          let n = held - 1 in
          if n == 0
          then (ok (some (snap g tenant 0)), record g { inflight = Dict.remove g.inflight tenant })
          else (ok (some (snap g tenant n)), record g { inflight = Dict.put g.inflight tenant n })
    ]

unfoldable pub snapshot :
    String → Exec TenantConcurrencySlotGuard (Option TenantConcurrencySnapshot)
unfolding snap
snapshot tenant g =
    if str_eq tenant "" then (err value_error, g) else elim (Dict.get g.inflight tenant) [
      | none ↦ (ok none, g)
      | some n ↦ (ok (some (snap g tenant n)), g)
    ]
