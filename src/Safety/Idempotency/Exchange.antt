-- ===== src/Safety/Idempotency/Exchange.antt =====
-- A request with an idempotency key, from its claim to the replay of its response, among the calls of
-- others on the store of safety/idempotency.py.
use nexus_llm_router.Prelude.{
  ℕ, ◌≡◌, refl, ap, subst, ◌∙◌, String, Bool, true, false, some, Result, ok, err, List, ltb,
  if◌then◌else◌, ◌==◌, key_in_use,
}
use nexus_llm_router.Safety.Idempotency.{
  pending_status_code, IdempotencyReservation, IdempotencyRecord, IdempotencyStore, Claim, claimed,
  replayed, reserve, response_row, complete, get,
}
use nexus_llm_router.Safety.Idempotency.Claims.{
  StoreCall, after_calls, leave_alone, calls-Stands, evict-Stands,
}
use nexus_llm_router.Safety.Idempotency.Table.{IsKeyed, reserve-IsKeyed, calls-IsKeyed}
use nexus_llm_router.Safety.Idempotency.Replay.{pending_row, IsAskable, reserve-told}
use nexus_llm_router.Safety.Idempotency.Once.{Won, reserve-Won, complete-owned}

-- A claim, the calls of others, the response that completes the claim, more calls, and a second request
-- with the same key.
pub record Exchange : Type 0 where
  pub key : String
  pub tenant : String
  pub lease : ℕ
  pub token : String
  pub claimed_at : ℕ
  pub meanwhile : List (ℕ × StoreCall)
  pub response : String
  pub status : ℕ
  pub completed_at : ℕ
  pub later : List (ℕ × StoreCall)
  pub second_lease : ℕ
  pub second_token : String
  pub repeated_at : ℕ

module _ (e : Exchange) (s : IdempotencyStore) where
  abbrev pub reservation : IdempotencyReservation
  reservation = record { key = e.key; tenant = e.tenant; token = e.token }

  abbrev pub claim : Result Claim × IdempotencyStore
  claim = reserve e.key e.tenant e.lease e.token e.claimed_at s

  abbrev pub before_response : IdempotencyStore
  before_response = after_calls e.meanwhile claim.1

  abbrev pub completion : Bool × IdempotencyStore
  completion = complete reservation e.response e.status e.completed_at before_response

  abbrev pub stored_row : IdempotencyRecord
  stored_row = response_row before_response e.key e.tenant e.response e.status e.completed_at

  abbrev pub before_repeat : IdempotencyStore
  before_repeat = after_calls e.later completion.1

  abbrev pub repeat : Result Claim
  repeat = (reserve e.key e.tenant e.second_lease e.second_token e.repeated_at before_repeat).0

  -- The first `reserve` answers the claim, the others keep within the lease and the lifetime of the
  -- response and do not have the token, and the second request comes within that lifetime.
  pub record IsExchange : Type 0 where
    pub keyed : IsKeyed s.rows
    pub won : claim.0 ≡ ok (claimed reservation)
    pub held : leave_alone (pending_row reservation e.lease e.claimed_at) e.meanwhile ≡ true
    pub answered : (e.status == pending_status_code) ≡ false
    pub kept : leave_alone stored_row e.later ≡ true
    pub askable : IsAskable e.key e.tenant e.second_lease
    pub fresh : ltb e.repeated_at stored_row.expires_at ≡ true

  -- A claim is carried out once, and its response is replayed. When `reserve` answers a claim, its owner
  -- completes it with a response and other callers do what they like within the lease and the
  -- lifetime of the response, then `complete` answers that it stored the response, and a second
  -- `reserve` of the key within that lifetime answers the stored response, and so does `get`. The
  -- table has no two rows of one key, and the status is not 0.
  pub exchange-replayed :
      IsExchange
      → (completion.0 ≡ true)
        × ((repeat ≡ ok (replayed stored_row))
            × ((get e.key e.tenant e.repeated_at before_repeat).0 ≡ some stored_row))
  unfolding get
  exchange-replayed x =
      let first =
        subst (λ a. Won e.lease e.claimed_at a claim.1.rows) x.won
          (reserve-Won e.key e.tenant e.lease e.token e.claimed_at s) in
      let there =
        calls-Stands (pending_row reservation e.lease e.claimed_at) e.meanwhile claim.1 first
          x.held in
      let keyed =
        calls-IsKeyed e.meanwhile claim.1
          (reserve-IsKeyed e.key e.tenant e.lease e.token e.claimed_at s x.keyed) in
      let (stored, done) =
        complete-owned reservation e.response e.status e.completed_at before_response e.lease
          e.claimed_at keyed there in
      let last = calls-Stands stored_row e.later completion.1 done x.kept in
      (
        stored,
        (
          reserve-told e.key e.tenant e.second_lease e.second_token e.repeated_at before_repeat
                stored_row x.askable last x.fresh
              ∙ ap (λ b. if b then err key_in_use else ok (replayed stored_row)) x.answered,
          rw
              (
                evict-Stands e.key e.tenant stored_row e.repeated_at before_repeat.rows x.fresh
                    last,
                x.answered,
              )
              refl,
        ),
      )
