-- ===== src/Safety/Idempotency/Ownership.antt =====
-- What each statement of safety/idempotency.py leaves of a row of the table.
use nexus_llm_router.Prelude.{
  ◌≡◌, inl, inr, ap, ◌∙◌, arith, String, Bool, true, false, Bool-cases, Option-cases, none, some,
  List, [], ◌∷◌, ◌++◌,
}
use nexus_llm_router.Prelude.Choice.{keep}
use nexus_llm_router.Safety.Idempotency.{
  IdempotencyRecord, is_for, select, insert_or_ignore, update,
}

abbrev pub Rows : Type 0
Rows = List IdempotencyRecord

pub some_inj : {a b : IdempotencyRecord} → some a ≡ some b → a ≡ b
some_inj {a} e = ap (λ o. elim o [ none ↦ a | some x ↦ x ]) e

module _ (key tenant : String) where
  -- The row of the key is this one.
  abbrev pub Stands : IdempotencyRecord → Rows → Type 0
  Stands row rows = select key tenant rows ≡ some row

  abbrev pub Free : Rows → Type 0
  Free rows = select key tenant rows ≡ none

  pub keep-Stands :
      (test : IdempotencyRecord → Bool) (row : IdempotencyRecord) (rows : Rows)
      → test row ≡ true
      → Stands row rows
      → Stands row (keep test rows)
  unfolding select keep
  keep-Stands test row [] t h = cc
  keep-Stands test row (r ∷ rs) t h = elim (Bool-cases (is_for key tenant r)) [
    | inl match ↦
        let k : some r ≡ some row = simp match at h in
        let kept = ap test (some_inj k) ∙ t in rw (kept, match) k
    | inr other ↦
        let k : select key tenant rs ≡ some row = simp other at h in
        elim (Bool-cases (test r)) [
          | inl kept ↦ rw (kept, other) (keep-Stands test row rs t k)
          | inr dropped ↦ rw dropped (keep-Stands test row rs t k)
        ]
  ]

  pub append-Stands :
      (row new : IdempotencyRecord) (rows : Rows) → Stands row rows → Stands row (rows ++ new ∷ [])
  unfolding select
  append-Stands row new [] h = cc
  append-Stands row new (r ∷ rs) h = ground (arith, h, append-Stands row new rs)

  pub update-Stands :
      (test : IdempotencyRecord → Bool) (set : IdempotencyRecord → IdempotencyRecord)
      (row : IdempotencyRecord) (rows : Rows)
      → ((r : IdempotencyRecord) → is_for key tenant (set r) ≡ is_for key tenant r)
      → test row ≡ false
      → Stands row rows
      → Stands row (update test set rows).1
  unfolding select update
  update-Stands test set row [] same t h = cc
  update-Stands test set row (r ∷ rs) same t h = elim (Bool-cases (is_for key tenant r)) [
    | inl match ↦
        let k : some r ≡ some row = simp match at h in
        let stays = ap test (some_inj k) ∙ t in rw (stays, match) k
    | inr other ↦
        let k : select key tenant rs ≡ some row = simp other at h in
        elim (Bool-cases (test r)) [
          | inl changed ↦ rw (changed, same r, other) (update-Stands test set row rs same t k)
          | inr stays ↦ rw (stays, other) (update-Stands test set row rs same t k)
        ]
  ]

  pub insert-Stands :
      (row new : IdempotencyRecord) (rows : Rows)
      → Stands row rows
      → Stands row (insert_or_ignore new rows).1
  unfolding insert_or_ignore
  insert-Stands row new rows h = elim (Option-cases (select new.key new.tenant rows)) [
    | inl free ↦ rw (free, insert_or_ignore) (append-Stands row new rows h)
    | inr (r, there) ↦ rw (there, insert_or_ignore) h
  ]
