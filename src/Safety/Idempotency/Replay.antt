-- ===== src/Safety/Idempotency/Replay.antt =====
-- What callers of safety/idempotency.py are told while a row stands, from a claim to the replay of its
-- response.
use nexus_llm_router.Prelude.{
  ℕ, ◌+◌, ◌<◌, ◌≡◌, refl, arith, eq_iff, String, true, false, none, ok, err, List, [], ◌∷◌, ◌++◌,
  ltb, if◌then◌else◌, str_eq, ◌==◌, key_in_use,
}
use nexus_llm_router.Safety.Idempotency.{
  pending_status_code, IdempotencyReservation, IdempotencyRecord, IdempotencyStore, replayed,
  select, insert_or_ignore, evict_expired_locked, reserve, get,
}
use nexus_llm_router.Safety.Idempotency.Ownership.{Rows, Stands, Free}
use nexus_llm_router.Safety.Idempotency.Claims.{
  StoreCall, after_calls, leave_alone, calls-Stands, evict-Stands,
}

-- The row of a claim.
abbrev pub pending_row : IdempotencyReservation → (lease_seconds now : ℕ) → IdempotencyRecord
pending_row reservation lease_seconds now = record {
  key = reservation.key;
  tenant = reservation.tenant;
  response_json = reservation.token;
  status_code = pending_status_code;
  created_at = now;
  expires_at = now + lease_seconds;
}

-- The arguments that `reserve` takes: it raises `ValueError` for others.
pub record IsAskable (key tenant : String) (lease_seconds : ℕ) : Type 0 where
  pub some_key : str_eq key "" ≡ false
  pub some_tenant : str_eq tenant "" ≡ false
  pub some_time : (lease_seconds == 0) ≡ false

insert-ignored :
    (new row : IdempotencyRecord) (rows : Rows)
    → Stands new.key new.tenant row rows
    → insert_or_ignore new rows ≡ (false, rows)
unfolding insert_or_ignore
insert-ignored new row rows h = rw (h, insert_or_ignore) refl

pub append-Stands_new :
    (new : IdempotencyRecord) (rows : Rows)
    → Free new.key new.tenant rows
    → Stands new.key new.tenant new (rows ++ new ∷ [])
unfolding select
append-Stands_new new [] h = ground (arith, eq_iff new.key new.key, eq_iff new.tenant new.tenant)
append-Stands_new new (r ∷ rs) h = ground (arith, h, append-Stands_new new rs)

-- The answer of `reserve` while a row of the key stands.
pub reserve-told :
    (key tenant : String) (lease : ℕ) (token : String) (now : ℕ) (s : IdempotencyStore)
    (row : IdempotencyRecord)
    → IsAskable key tenant lease
    → Stands key tenant row s.rows
    → ltb now row.expires_at ≡ true
    → (reserve key tenant lease token now s).0
      ≡ (if row.status_code == pending_status_code then err key_in_use else ok (replayed row))
unfolding reserve
reserve-told key tenant lease token now s row ask h t =
    let there = evict-Stands key tenant row now s.rows t h in
    rw
      (
        ask.some_key,
        ask.some_tenant,
        ask.some_time,
        insert-ignored
            (pending_row (record { key = key; tenant = tenant; token = token }) lease now) row
            (evict_expired_locked now s.rows) there,
        there,
      )
      refl

-- While a reservation stands, and before it expires, every `reserve` of the key raises
-- `IdempotencyKeyInUseError` and every `get` answers `None`, whatever other callers did meanwhile: only
-- the owner of the token can complete or release it. The key and the tenant are not empty, and
-- the lease asked for is positive.
pub reserve-excludes :
    (reservation : IdempotencyReservation) (lease now : ℕ) (s : IdempotencyStore)
    (cs : List (ℕ × StoreCall)) (lease' : ℕ) (token' : String) (now' : ℕ)
    → Stands reservation.key reservation.tenant (pending_row reservation lease now) s.rows
    → leave_alone (pending_row reservation lease now) cs ≡ true
    → IsAskable reservation.key reservation.tenant lease'
    → now' < now + lease
    → ((reserve reservation.key reservation.tenant lease' token' now' (after_calls cs s)).0
        ≡ err key_in_use)
      × ((get reservation.key reservation.tenant now' (after_calls cs s)).0 ≡ none)
unfolding get
reserve-excludes reservation lease now s cs lease' token' now' h alone ask t =
    let row = pending_row reservation lease now in
    let there = calls-Stands row cs s h alone in
    let fresh : ltb now' row.expires_at ≡ true = ground (arith, t) in
    (
      reserve-told reservation.key reservation.tenant lease' token' now' (after_calls cs s) row ask
          there fresh,
      rw
          (evict-Stands reservation.key reservation.tenant row now' (after_calls cs s).rows fresh
            there)
          refl,
    )
