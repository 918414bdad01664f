-- ===== src/Safety/Idempotency/Table.antt =====
-- The primary key of the table of safety/idempotency.py: no two rows have the same key and tenant.
use nexus_llm_router.Prelude.{
  ℕ, ◌≡◌, inl, inr, refl, arith, eq_iff, String, Bool, false, Bool-cases, Option-cases, Option,
  none, some, List, [], ◌∷◌, ◌++◌, str_eq, ◌==◌,
}
use nexus_llm_router.Prelude.Choice.{keep}
use nexus_llm_router.Safety.Idempotency.{
  IdempotencyRecord, IdempotencyStore, is_for, select, insert_or_ignore, owns, update,
  evict_expired_locked, reserve, response_row, stored_or_insert, complete, release, put_over, put,
  get, evict_expired,
}
use nexus_llm_router.Safety.Idempotency.Ownership.{Rows, Free}
use nexus_llm_router.Safety.Idempotency.Claims.{
  StoreCall, after_call, after_calls, call_reserve, call_complete, call_release, call_put, call_get,
  call_evict,
}

abbrev pub IsKeyed : Rows → Type 0
IsKeyed [] = Unit {0}
IsKeyed (r ∷ rs) = Free r.key r.tenant rs × IsKeyed rs

keep-Free :
    (key tenant : String) (test : IdempotencyRecord → Bool) (rows : Rows)
    → Free key tenant rows
    → Free key tenant (keep test rows)
unfolding keep select
keep-Free key tenant test [] h = refl
keep-Free key tenant test (r ∷ rs) h = ground (arith, h, keep-Free key tenant test rs)

keep-IsKeyed :
    (test : IdempotencyRecord → Bool) (rows : Rows) → IsKeyed rows → IsKeyed (keep test rows)
unfolding keep
keep-IsKeyed test [] h = tt
keep-IsKeyed test (r ∷ rs) h = elim (Bool-cases (test r)) [
  | inl kept ↦ rw kept (keep-Free r.key r.tenant test rs h.0, keep-IsKeyed test rs h.1)
  | inr dropped ↦ rw dropped (keep-IsKeyed test rs h.1)
]

append-Free :
    (key tenant : String) (new : IdempotencyRecord) (rows : Rows)
    → Free key tenant rows
    → is_for key tenant new ≡ false
    → Free key tenant (rows ++ new ∷ [])
unfolding select
append-Free key tenant new [] h f = rw f refl
append-Free key tenant new (r ∷ rs) h f = ground (arith, h, append-Free key tenant new rs)

other_key :
    (r new : IdempotencyRecord)
    → is_for new.key new.tenant r ≡ false
    → is_for r.key r.tenant new ≡ false
other_key r new h = ground (
  arith,
  h,
  eq_iff r.key new.key,
  eq_iff new.key r.key,
  eq_iff r.tenant new.tenant,
  eq_iff new.tenant r.tenant,
)

append-IsKeyed :
    (new : IdempotencyRecord) (rows : Rows)
    → IsKeyed rows
    → Free new.key new.tenant rows
    → IsKeyed (rows ++ new ∷ [])
unfolding select
append-IsKeyed new [] h f = (refl, tt)
append-IsKeyed new (r ∷ rs) h f = elim (Bool-cases (is_for new.key new.tenant r)) [
  | inl match ↦ let k : some r ≡ none = simp match at f in cc
  | inr other ↦
      let k : select new.key new.tenant rs ≡ none = simp other at f in
      (append-Free r.key r.tenant new rs h.0 (other_key r new other), append-IsKeyed new rs h.1 k)
]

insert-IsKeyed :
    (new : IdempotencyRecord) (rows : Rows) → IsKeyed rows → IsKeyed (insert_or_ignore new rows).1
unfolding insert_or_ignore
insert-IsKeyed new rows h = elim (Option-cases (select new.key new.tenant rows)) [
  | inl free ↦ rw (free, insert_or_ignore) (append-IsKeyed new rows h free)
  | inr (r, there) ↦ rw (there, insert_or_ignore) h
]

-- A statement that sets no key.
module _ (test : IdempotencyRecord → Bool) (set : IdempotencyRecord → IdempotencyRecord)
    (same_key : (r : IdempotencyRecord) → (set r).key ≡ r.key)
    (same_tenant : (r : IdempotencyRecord) → (set r).tenant ≡ r.tenant) where
  update-Free :
      (key tenant : String) (rows : Rows)
      → Free key tenant rows
      → Free key tenant (update test set rows).1
  unfolding update select
  update-Free key tenant [] h = refl
  update-Free key tenant (r ∷ rs) h =
      ground (arith, h, same_key r, same_tenant r, update-Free key tenant rs)

  update-IsKeyed : (rows : Rows) → IsKeyed rows → IsKeyed (update test set rows).1
  unfolding update
  update-IsKeyed [] h = tt
  update-IsKeyed (r ∷ rs) h = elim (Bool-cases (test r)) [
    | inl changed ↦
        rw (changed, same_key r, same_tenant r)
          (update-Free r.key r.tenant rs h.0, update-IsKeyed rs h.1)
    | inr stays ↦ rw stays (update-Free r.key r.tenant rs h.0, update-IsKeyed rs h.1)
  ]

pub reserve-IsKeyed :
    (k u : String) (lease : ℕ) (token : String) (now : ℕ) (s : IdempotencyStore)
    → IsKeyed s.rows
    → IsKeyed (reserve k u lease token now s).1.rows
unfolding reserve evict_expired_locked
reserve-IsKeyed k u lease token now s h = elim (Bool-cases (str_eq k "")) [
  | inl bad ↦ rw bad h
  | inr fine ↦ elim (Bool-cases (str_eq u "")) [
    | inl bad ↦ rw (fine, bad) h
    | inr fine' ↦ elim (Bool-cases (lease == 0)) [
      | inl bad ↦ rw (fine, fine', bad) h
      | inr fine'' ↦ rw (fine, fine', fine'') (insert-IsKeyed _ _ (keep-IsKeyed _ s.rows h))
    ]
  ]
]

put-IsKeyed :
    (k u response : String) (code now : ℕ) (s : IdempotencyStore)
    → IsKeyed s.rows
    → IsKeyed (put k u response code now s).1.rows
unfolding put evict_expired_locked
put-IsKeyed k u response code now s h = elim (Bool-cases (str_eq k "")) [
  | inl bad ↦ rw bad h
  | inr fine ↦ elim (Bool-cases (str_eq u "")) [
    | inl bad ↦ rw (fine, bad) h
    | inr fine' ↦ rw (fine, fine') (over _ refl (keep-IsKeyed _ s.rows h))
  ]
]
  where
    over :
        (o : Option IdempotencyRecord)
        → select k u (evict_expired_locked now s.rows) ≡ o
        → IsKeyed (evict_expired_locked now s.rows)
        → IsKeyed
            (put_over o (response_row s k u response code now) (evict_expired_locked now s.rows)).1
    over none e g = append-IsKeyed _ _ g e
    over (some r) e g = g

stored-IsKeyed :
    (n : ℕ) (new : IdempotencyRecord) (now : ℕ) (updated : Rows)
    → IsKeyed updated
    → IsKeyed (stored_or_insert n new now updated).1
unfolding evict_expired_locked
stored-IsKeyed n new now updated h = elim (Bool-cases (n == 1)) [
  | inl done ↦ rw done h
  | inr not_done ↦ rw not_done (insert-IsKeyed new _ (keep-IsKeyed _ updated h))
]

after_call-IsKeyed :
    (now : ℕ) (c : StoreCall) (s : IdempotencyStore)
    → IsKeyed s.rows
    → IsKeyed (after_call now c s).rows
unfolding complete release get evict_expired evict_expired_locked
after_call-IsKeyed now (call_reserve k u lease token) s h = reserve-IsKeyed k u lease token now s h
after_call-IsKeyed now (call_complete reservation response code) s h =
    stored-IsKeyed _ _ now _ (update-IsKeyed (owns reservation) _ (λ r. refl) (λ r. refl) s.rows h)
after_call-IsKeyed now (call_release reservation) s h = keep-IsKeyed _ s.rows h
after_call-IsKeyed now (call_put k u response code) s h = put-IsKeyed k u response code now s h
after_call-IsKeyed now (call_get k u) s h = keep-IsKeyed _ s.rows h
after_call-IsKeyed now call_evict s h = keep-IsKeyed _ s.rows h

-- No sequence of calls of the store breaks the primary key: no two rows have the same key and tenant, when
-- that held before.
pub calls-IsKeyed :
    (cs : List (ℕ × StoreCall)) (s : IdempotencyStore)
    → IsKeyed s.rows
    → IsKeyed (after_calls cs s).rows
calls-IsKeyed [] s h = h
calls-IsKeyed ((now, c) ∷ cs) s h =
    calls-IsKeyed cs (after_call now c s) (after_call-IsKeyed now c s h)
