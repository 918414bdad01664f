-- ===== src/Safety/Idempotency/Claims.antt =====
-- Who may change a row of `IdempotencyStore` of safety/idempotency.py, and what callers are told.
use nexus_llm_router.Prelude.{
  ℕ, ◌≡◌, inl, inr, refl, arith, String, Bool, true, false, Bool-cases, Option, none, some, List,
  [], ◌∷◌, ◌&&◌, not, ltb, str_eq, ◌==◌,
}
use nexus_llm_router.Safety.Idempotency.{
  IdempotencyReservation, IdempotencyRecord, IdempotencyStore, owns, evict_expired_locked, reserve,
  response_row, stored_or_insert, complete, release, put_over, put, get, evict_expired,
}
use nexus_llm_router.Safety.Idempotency.Ownership.{
  Rows, Stands, keep-Stands, append-Stands, update-Stands, insert-Stands,
}

-- A call of the store, at a time.
pub data StoreCall : Type 0 where
  call_reserve : (key tenant : String) (lease_seconds : ℕ) (token : String) → StoreCall
  call_complete : IdempotencyReservation → (response_json : String) (status_code : ℕ) → StoreCall
  call_release : IdempotencyReservation → StoreCall
  call_put : (key tenant response_json : String) (status_code : ℕ) → StoreCall
  call_get : (key tenant : String) → StoreCall
  call_evict : StoreCall

abbrev pub after_call : ℕ → StoreCall → IdempotencyStore → IdempotencyStore
after_call now (call_reserve key tenant lease_seconds token) s =
    (reserve key tenant lease_seconds token now s).1
after_call now (call_complete reservation response_json status_code) s =
    (complete reservation response_json status_code now s).1
after_call now (call_release reservation) s = release reservation s
after_call now (call_put key tenant response_json status_code) s =
    (put key tenant response_json status_code now s).1
after_call now (call_get key tenant) s = (get key tenant now s).1
after_call now call_evict s = (evict_expired now s).1

abbrev pub after_calls : List (ℕ × StoreCall) → IdempotencyStore → IdempotencyStore
after_calls [] s = s
after_calls ((now, c) ∷ cs) s = after_calls cs (after_call now c s)

-- Whether the call completes or releases the reservation that the row is.
unfoldable pub by_owner : IdempotencyRecord → StoreCall → Bool
by_owner row (call_complete reservation response_json status_code) = owns reservation row
by_owner row (call_release reservation) = owns reservation row
by_owner row _ = false

-- Every call comes before the row expires, and none is the owner's.
unfoldable pub leave_alone : IdempotencyRecord → List (ℕ × StoreCall) → Bool
unfolding by_owner
leave_alone row [] = true
leave_alone row ((now, c) ∷ cs) =
    ltb now row.expires_at && not (by_owner row c) && leave_alone row cs

module _ (key tenant : String) (row : IdempotencyRecord) where
  pub evict-Stands :
      (now : ℕ) (rows : Rows)
      → ltb now row.expires_at ≡ true
      → Stands key tenant row rows
      → Stands key tenant row (evict_expired_locked now rows)
  unfolding evict_expired_locked
  evict-Stands now rows t h = keep-Stands key tenant _ row rows t h

  reserve-Stands :
      (k u : String) (lease : ℕ) (token : String) (now : ℕ) (s : IdempotencyStore)
      → ltb now row.expires_at ≡ true
      → Stands key tenant row s.rows
      → Stands key tenant row (reserve k u lease token now s).1.rows
  unfolding reserve
  reserve-Stands k u lease token now s t h = elim (Bool-cases (str_eq k "")) [
    | inl bad ↦ rw bad h
    | inr fine ↦ elim (Bool-cases (str_eq u "")) [
      | inl bad ↦ rw (fine, bad) h
      | inr fine' ↦ elim (Bool-cases (lease == 0)) [
        | inl bad ↦ rw (fine, fine', bad) h
        | inr fine'' ↦
            rw (fine, fine', fine'')
              (insert-Stands key tenant row _ _ (evict-Stands now s.rows t h))
      ]
    ]
  ]

  put-Stands :
      (k u response : String) (code now : ℕ) (s : IdempotencyStore)
      → ltb now row.expires_at ≡ true
      → Stands key tenant row s.rows
      → Stands key tenant row (put k u response code now s).1.rows
  unfolding put
  put-Stands k u response code now s t h = elim (Bool-cases (str_eq k "")) [
    | inl bad ↦ rw bad h
    | inr fine ↦ elim (Bool-cases (str_eq u "")) [
      | inl bad ↦ rw (fine, bad) h
      | inr fine' ↦ rw (fine, fine') (over _ (evict-Stands now s.rows t h))
    ]
  ]
    where
      over :
          (o : Option IdempotencyRecord)
          → Stands key tenant row (evict_expired_locked now s.rows)
          → Stands key tenant row
              (put_over o
                (response_row s k u response code now)
                (evict_expired_locked now s.rows)).1
      over none g = append-Stands key tenant row _ _ g
      over (some r) g = g

  stored-Stands :
      (n : ℕ) (new : IdempotencyRecord) (now : ℕ) (updated : Rows)
      → ltb now row.expires_at ≡ true
      → Stands key tenant row updated
      → Stands key tenant row (stored_or_insert n new now updated).1
  stored-Stands n new now updated t h = elim (Bool-cases (n == 1)) [
    | inl done ↦ rw done h
    | inr not_done ↦ rw not_done (insert-Stands key tenant row new _ (evict-Stands now updated t h))
  ]

  complete-Stands :
      (reservation : IdempotencyReservation) (response : String) (code now : ℕ)
      (s : IdempotencyStore)
      → ltb now row.expires_at ≡ true
      → owns reservation row ≡ false
      → Stands key tenant row s.rows
      → Stands key tenant row (complete reservation response code now s).1.rows
  unfolding complete
  complete-Stands reservation response code now s t o h =
      stored-Stands _ _ now _ t
        (update-Stands key tenant (owns reservation) _ row s.rows (λ r. refl) o h)

  after_call-Stands :
      (now : ℕ) (c : StoreCall) (s : IdempotencyStore)
      → ltb now row.expires_at ≡ true
      → by_owner row c ≡ false
      → Stands key tenant row s.rows
      → Stands key tenant row (after_call now c s).rows
  unfolding by_owner release get evict_expired
  after_call-Stands now (call_reserve k u lease token) s t o h =
      reserve-Stands k u lease token now s t h
  after_call-Stands now (call_complete reservation response code) s t o h =
      complete-Stands reservation response code now s t o h
  after_call-Stands now (call_release reservation) s t o h =
      keep-Stands key tenant _ row s.rows (rw o refl) h
  after_call-Stands now (call_put k u response code) s t o h =
      put-Stands k u response code now s t h
  after_call-Stands now (call_get k u) s t o h = evict-Stands now s.rows t h
  after_call-Stands now call_evict s t o h = evict-Stands now s.rows t h

-- A row stays as it is, whatever the other callers do before it expires: no `reserve`, `put`, `get`,
-- eviction, and no `complete` or `release` of a reservation that is not the row's, changes or removes
-- it. A row that holds a response has no owner, so nothing changes it.
pub calls-Stands :
    (row : IdempotencyRecord) (cs : List (ℕ × StoreCall)) (s : IdempotencyStore)
    → Stands row.key row.tenant row s.rows
    → leave_alone row cs ≡ true
    → Stands row.key row.tenant row (after_calls cs s).rows
unfolding leave_alone
calls-Stands row [] s h alone = h
calls-Stands row ((now, c) ∷ cs) s h alone =
    calls-Stands row cs (after_call now c s)
      (after_call-Stands row.key row.tenant row now c s (ground (arith, alone))
        (ground (arith, alone)) h)
      (ground (arith, alone))
