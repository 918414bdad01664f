-- ===== src/Safety/Idempotency/Once.antt =====
-- From a claim to the replay of its response, in safety/idempotency.py.
use nexus_llm_router.Prelude.{
  ℕ, suc, ◌+◌, ◌≡◌, inl, inr, refl, sym, ap, ◌∙◌, arith, eq_iff, String, true, false, Bool-cases,
  Option-cases, Option, none, some, Result, ok, err, [], ◌∷◌, if◌then◌else◌, str_eq, ◌==◌,
}
use nexus_llm_router.Safety.Idempotency.{
  pending_status_code, IdempotencyReservation, IdempotencyRecord, IdempotencyStore, Claim, claimed,
  replayed, is_for, select, insert_or_ignore, owns, update, evict_expired_locked, claim_of, reserve,
  response_row, complete,
}
use nexus_llm_router.Safety.Idempotency.Ownership.{Rows, Stands, Free, some_inj}
use nexus_llm_router.Safety.Idempotency.Table.{IsKeyed}
use nexus_llm_router.Safety.Idempotency.Replay.{pending_row, append-Stands_new}

-- What the table has when `reserve` answers a claim.
abbrev pub Won : (lease now : ℕ) → Result Claim → Rows → Type 0
Won lease now (ok (claimed reservation)) rows =
    Stands reservation.key reservation.tenant (pending_row reservation lease now) rows
Won lease now (ok (replayed row)) rows = Unit {0}
Won lease now (err e) rows = Unit {0}

claim_of-Won :
    (reservation : IdempotencyReservation) (lease now : ℕ) (o : Option IdempotencyRecord)
    (rows : Rows)
    → (o ≡ none
        → Stands reservation.key reservation.tenant (pending_row reservation lease now) rows)
    → Won lease now (claim_of reservation o) rows
claim_of-Won reservation lease now none rows h = h refl
claim_of-Won reservation lease now (some r) rows h =
    elim (Bool-cases (r.status_code == pending_status_code)) [
      | inl pending ↦ rw pending tt
      | inr done ↦ rw done tt
    ]

inserted-Won :
    (reservation : IdempotencyReservation) (lease now : ℕ) (rows : Rows)
    → let (inserted, rows') = insert_or_ignore (pending_row reservation lease now) rows in
      let standing = if inserted then none else select reservation.key reservation.tenant rows' in
      Won lease now (claim_of reservation standing) rows'
unfolding insert_or_ignore
inserted-Won reservation lease now rows =
    let row = pending_row reservation lease now in
    elim (Option-cases (select reservation.key reservation.tenant rows)) [
      | inl free ↦ rw (free, insert_or_ignore) (append-Stands_new row rows free)
      | inr (r, there) ↦
          rw (there, insert_or_ignore)
            (claim_of-Won reservation lease now (select reservation.key reservation.tenant rows)
              rows (λ e. let clash = sym e ∙ there in cc))
    ]

pub reserve-Won :
    (key tenant : String) (lease : ℕ) (token : String) (now : ℕ) (s : IdempotencyStore)
    → let (a, s') = reserve key tenant lease token now s in Won lease now a s'.rows
unfolding reserve
reserve-Won key tenant lease token now s = elim (Bool-cases (str_eq key "")) [
  | inl bad ↦ rw bad tt
  | inr fine ↦ elim (Bool-cases (str_eq tenant "")) [
    | inl bad ↦ rw (fine, bad) tt
    | inr fine' ↦ elim (Bool-cases (lease == 0)) [
      | inl bad ↦ rw (fine, fine', bad) tt
      | inr fine'' ↦
          rw (fine, fine', fine'')
            (inserted-Won (record { key = key; tenant = tenant; token = token }) lease now
              (evict_expired_locked now s.rows))
    ]
  ]
]

owns_none :
    (reservation : IdempotencyReservation) (set : IdempotencyRecord → IdempotencyRecord)
    (rows : Rows)
    → Free reservation.key reservation.tenant rows
    → (update (owns reservation) set rows).0 ≡ 0
unfolding update select
owns_none reservation set [] h = refl
owns_none reservation set (r ∷ rs) h = ground (arith, h, owns_none reservation set rs)

-- The `UPDATE` of the owner changes one row, the reservation's.
update-owned :
    (reservation : IdempotencyReservation) (set : IdempotencyRecord → IdempotencyRecord)
    (row : IdempotencyRecord) (rows : Rows)
    → ((r : IdempotencyRecord)
        → is_for reservation.key reservation.tenant (set r)
          ≡ is_for reservation.key reservation.tenant r)
    → IsKeyed rows
    → owns reservation row ≡ true
    → Stands reservation.key reservation.tenant row rows
    → let (n, rows') = update (owns reservation) set rows in
      (n ≡ 1) × Stands reservation.key reservation.tenant (set row) rows'
unfolding update select
update-owned reservation set row [] same keyed o h = cc
update-owned reservation set row (r ∷ rs) same keyed o h =
    elim (Bool-cases (is_for reservation.key reservation.tenant r)) [
      | inl match ↦
          let k : some r ≡ some row = simp match at h in
          let e : r.key ≡ reservation.key = ground (arith, match, eq_iff r.key reservation.key) in
          let f : r.tenant ≡ reservation.tenant =
            ground (arith, match, eq_iff r.tenant reservation.tenant) in
          let free : Free reservation.key reservation.tenant rs = rw (← e, ← f) keyed.0 in
          let mine = ap (owns reservation) (some_inj k) ∙ o in
          rw (mine, same r, match)
            (ap suc (owns_none reservation set rs free), ap (λ x. some (set x)) (some_inj k))
      | inr other ↦
          let k : select reservation.key reservation.tenant rs ≡ some row = simp other at h in
          let ih = update-owned reservation set row rs same keyed.1 o k in
          let not_mine : owns reservation r ≡ false = ground (arith, other) in
          rw (not_mine, other) ih
    ]

owns-pending_row :
    (reservation : IdempotencyReservation) (lease now : ℕ)
    → owns reservation (pending_row reservation lease now) ≡ true
owns-pending_row reservation lease now = ground (
  arith,
  eq_iff reservation.key reservation.key,
  eq_iff reservation.tenant reservation.tenant,
  eq_iff reservation.token reservation.token,
)

-- The owner's `complete` stores the response.
pub complete-owned :
    (reservation : IdempotencyReservation) (response : String) (code now : ℕ) (s : IdempotencyStore)
    (lease was : ℕ)
    → IsKeyed s.rows
    → Stands reservation.key reservation.tenant (pending_row reservation lease was) s.rows
    → let (stored, s') = complete reservation response code now s in
      (stored ≡ true)
      × Stands reservation.key reservation.tenant
          (response_row s reservation.key reservation.tenant response code now)
          s'.rows
unfolding complete
complete-owned reservation response code now s lease was keyed h =
    let set : IdempotencyRecord → IdempotencyRecord = λ r. record r {
      response_json = response;
      status_code = code;
      created_at = now;
      expires_at = now + s.ttl_seconds;
    } in
    let (n, there) =
      update-owned reservation set (pending_row reservation lease was) s.rows (λ r. refl) keyed
        (owns-pending_row reservation lease was) h in
    rw n (refl, there)
