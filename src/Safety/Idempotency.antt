-- ===== src/Safety/Idempotency.antt =====
-- safety/idempotency.py: `IdempotencyStore`. The lock and the primary key of the table make each method
-- one step, for all processes that share the file; the store in memory is modelled, whose one
-- connection sees what it deleted. The clock's reads and the random token are arguments.
pub mod Ownership
pub mod Claims
pub mod Table
pub mod Replay
pub mod Once
pub mod Exchange
use nexus_llm_router.Prelude.{
  ℕ, zero, suc, ◌+◌, String, Bool, true, false, ◌&&◌, ◌||◌, not, Option, none, some, Result, Exec,
  ok, err, value_error, key_in_use, List, [], ◌∷◌, ◌++◌, length, leb, ltb, ◌==◌, if◌then◌else◌,
  str_eq, ◌-◌,
}
use nexus_llm_router.Prelude.Choice.{keep}

abbrev pub pending_status_code : ℕ
pending_status_code = 0

pub record IdempotencyReservation : Type 0 where
  pub key : String
  pub tenant : String
  pub token : String

-- A row of the table `idempotency_keys`, and the `IdempotencyRecord` that `_row_to_record` makes of it.
pub record IdempotencyRecord : Type 0 where
  pub key : String
  pub tenant : String
  pub response_json : String
  pub status_code : ℕ
  pub created_at : ℕ
  pub expires_at : ℕ

pub record IdempotencyStore : Type 0 where
  pub ttl_seconds : ℕ
  pub rows : List IdempotencyRecord

-- What `reserve` returns: the caller's claim, or the response to replay.
pub data Claim : Type 0 where
  claimed : IdempotencyReservation → Claim
  replayed : IdempotencyRecord → Claim

-- the constructor's check of the lifetime
unfoldable pub init : ℕ → Result IdempotencyStore
init ttl_seconds =
    if ttl_seconds == 0
    then err value_error
    else ok (record { ttl_seconds = ttl_seconds; rows = [] })

-- `WHERE key = ? AND tenant = ?`
abbrev pub is_for : String → String → IdempotencyRecord → Bool
is_for key tenant r = str_eq r.key key && str_eq r.tenant tenant

-- the row of a key, which the primary key makes the only one
unfoldable pub select : String → String → List IdempotencyRecord → Option IdempotencyRecord
select key tenant [] = none
select key tenant (r ∷ rs) =
    let rest = select key tenant rs in if is_for key tenant r then some r else rest

-- `INSERT OR IGNORE`: the table, and whether the row is new
unfoldable pub insert_or_ignore :
    IdempotencyRecord → List IdempotencyRecord → Bool × List IdempotencyRecord
unfolding select
insert_or_ignore row rows = elim (select row.key row.tenant rows) [
  | none ↦ (true, rows ++ row ∷ [])
  | some r ↦ (false, rows)
]

-- `WHERE key = ? AND tenant = ? AND status_code = ? AND response_json = ?`
abbrev pub owns : IdempotencyReservation → IdempotencyRecord → Bool
owns reservation r =
    is_for reservation.key reservation.tenant r
    && r.status_code == pending_status_code
    && str_eq r.response_json reservation.token

-- `UPDATE`: the table, and the number of rows that change
unfoldable pub update :
    (IdempotencyRecord → Bool)
    → (IdempotencyRecord → IdempotencyRecord)
    → List IdempotencyRecord
    → ℕ × List IdempotencyRecord
update test set [] = (0, [])
update test set (r ∷ rs) =
    let (n, rows) = update test set rs in if test r then (suc n, set r ∷ rows) else (n, r ∷ rows)

-- `_evict_expired_locked`
unfoldable pub evict_expired_locked : ℕ → List IdempotencyRecord → List IdempotencyRecord
unfolding keep
evict_expired_locked now = keep (λ r. ltb now r.expires_at)

-- what `reserve` returns for the row that stands in the way
abbrev pub claim_of : IdempotencyReservation → Option IdempotencyRecord → Result Claim
claim_of reservation none = ok (claimed reservation)
claim_of reservation (some r) =
    if r.status_code == pending_status_code then err key_in_use else ok (replayed r)

unfoldable pub reserve :
    (key tenant : String) (lease_seconds : ℕ) (token : String) (now : ℕ)
    → Exec IdempotencyStore Claim
unfolding insert_or_ignore evict_expired_locked select
reserve key tenant lease_seconds token now s =
    if str_eq key ""
    then (err value_error, s)
    else if str_eq tenant ""
    then (err value_error, s)
    else if lease_seconds == 0
    then (err value_error, s)
    else let rows = evict_expired_locked now s.rows in
      let row : IdempotencyRecord = record {
        key = key;
        tenant = tenant;
        response_json = token;
        status_code = pending_status_code;
        created_at = now;
        expires_at = now + lease_seconds;
      } in
      let (inserted, rows') = insert_or_ignore row rows in
      let standing = if inserted then none else select key tenant rows' in
      (
        claim_of (record { key = key; tenant = tenant; token = token }) standing,
        record s { rows = rows' },
      )

-- the row that `complete` and `put` store
abbrev pub response_row :
    IdempotencyStore → (key tenant response_json : String) (status_code now : ℕ) → IdempotencyRecord
response_row s key tenant response_json status_code now = record {
  key = key;
  tenant = tenant;
  response_json = response_json;
  status_code = status_code;
  created_at = now;
  expires_at = now + s.ttl_seconds;
}

-- what follows the `UPDATE` of `complete`, by the number of rows that changed
abbrev pub stored_or_insert :
    ℕ → IdempotencyRecord → ℕ → List IdempotencyRecord → Bool × List IdempotencyRecord
stored_or_insert n row now updated =
    if n == 1 then (true, updated) else insert_or_ignore row (evict_expired_locked now updated)

unfoldable pub complete :
    IdempotencyReservation
    → (response_json : String) (status_code : ℕ) (now : ℕ) → IdempotencyStore
    → Bool × IdempotencyStore
unfolding update insert_or_ignore evict_expired_locked
complete reservation response_json status_code now s =
    let row = response_row s reservation.key reservation.tenant response_json status_code now in
    let (n, updated) =
      update (owns reservation)
        (λ r. record r {
          response_json = response_json;
          status_code = status_code;
          created_at = now;
          expires_at = now + s.ttl_seconds;
        })
        s.rows in
    let (stored, rows) = stored_or_insert n row now updated in (stored, record s { rows = rows })

unfoldable pub release : IdempotencyReservation → IdempotencyStore → IdempotencyStore
unfolding keep
release reservation s = record s { rows = keep (λ r. not (owns reservation r)) s.rows }

-- what `put` does, by the row that is there
abbrev pub put_over :
    Option IdempotencyRecord
    → IdempotencyRecord
    → List IdempotencyRecord
    → Bool × List IdempotencyRecord
put_over none row rows = (true, rows ++ row ∷ [])
put_over (some r) row rows = (false, rows)

unfoldable pub put :
    (key tenant response_json : String) (status_code : ℕ) (now : ℕ) → Exec IdempotencyStore Bool
unfolding select evict_expired_locked
put key tenant response_json status_code now s =
    if str_eq key ""
    then (err value_error, s)
    else if str_eq tenant ""
    then (err value_error, s)
    else let rows = evict_expired_locked now s.rows in
      let (stored, rows') =
        put_over (select key tenant rows) (response_row s key tenant response_json status_code now)
          rows in
      (ok stored, record s { rows = rows' })

-- `None` for a pending row
abbrev pub response_of : Option IdempotencyRecord → Option IdempotencyRecord
response_of none = none
response_of (some r) = if r.status_code == pending_status_code then none else some r

unfoldable pub get :
    (key tenant : String) (now : ℕ) → IdempotencyStore → Option IdempotencyRecord × IdempotencyStore
unfolding select evict_expired_locked
get key tenant now s =
    let rows = evict_expired_locked now s.rows in
    (response_of (select key tenant rows), record s { rows = rows })

unfoldable pub evict_expired : ℕ → IdempotencyStore → ℕ × IdempotencyStore
unfolding evict_expired_locked
evict_expired now s =
    let rows = evict_expired_locked now s.rows in
    (length s.rows - length rows, record s { rows = rows })
