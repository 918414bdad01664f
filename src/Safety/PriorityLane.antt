-- ===== src/Safety/PriorityLane.antt =====
-- safety/priority_lane.py: `RequestPriorityLane`. The lock of the class makes each method one step. A
-- lane is given as a `PriorityClass`, and a name for one by `normalize_priority`, whose `strip` and
-- `lower` are an argument.
pub mod Fair
pub mod Served
pub mod Promise
pub mod Calls
use nexus_llm_router.Prelude.{
  ℕ, zero, suc, ◌+◌, ◌*◌, ◌%◌, String, Bool, true, false, ◌&&◌, ◌||◌, not, Option, none, some,
  Result, Exec, ok, err, value_error, List, [], ◌∷◌, ◌++◌, map, length, leb, ltb, if◌then◌else◌,
  str_eq,
}
use nexus_llm_router.Prelude.Int.{ℤ, pos, pos_part, ltb_ℤ}

pub data PriorityClass : Type 0 where
  high normal bulk : PriorityClass

pub record QueuedRequest : Type 0 where
  pub request_id : String
  pub priority : PriorityClass

pub record LaneDepthSnapshot : Type 0 where
  pub high_depth : ℕ
  pub normal_depth : ℕ
  pub bulk_depth : ℕ
  pub total : ℕ

-- A value for each class.
pub record Lanes (A : Type 0) : Type 0 where
  pub high_lane : A
  pub normal_lane : A
  pub bulk_lane : A

module _ {A : Type 0} where
  abbrev pub lane : Lanes A → PriorityClass → A
  lane q high = q.high_lane
  lane q normal = q.normal_lane
  lane q bulk = q.bulk_lane

  abbrev pub set_lane : Lanes A → PriorityClass → A → Lanes A
  set_lane q high a = record q { high_lane = a }
  set_lane q normal a = record q { normal_lane = a }
  set_lane q bulk a = record q { bulk_lane = a }

pub record RequestPriorityLane : Type 0 where
  pub weights : Lanes ℕ
  pub queues : Lanes (List String)
  pub cycle : List PriorityClass
  pub cycle_index : ℕ

abbrev pub default_weights : Lanes ℤ
default_weights = record { high_lane = pos 4; normal_lane = pos 2; bulk_lane = pos 1 }

-- `[lane] * weight`
unfoldable pub replicate : ℕ → PriorityClass → List PriorityClass
replicate zero p = []
replicate (suc n) p = p ∷ replicate n p

unfoldable pub build_cycle : Lanes ℕ → List PriorityClass
unfolding replicate
build_cycle w =
    replicate w.high_lane high ++ (replicate w.normal_lane normal ++ replicate w.bulk_lane bulk)

abbrev pub empty_lanes : Lanes (List String)
empty_lanes = record { high_lane = []; normal_lane = []; bulk_lane = [] }

-- The constructor, on the weights with the defaults filled in.
unfoldable pub init : Lanes ℤ → Result RequestPriorityLane
unfolding build_cycle
init resolved =
    if ltb_ℤ resolved.high_lane (pos 1)
      || ltb_ℤ resolved.normal_lane (pos 1)
      || ltb_ℤ resolved.bulk_lane (pos 1)
    then err value_error
    else let weights : Lanes ℕ = record {
      high_lane = pos_part resolved.high_lane;
      normal_lane = pos_part resolved.normal_lane;
      bulk_lane = pos_part resolved.bulk_lane;
    } in
      ok (record {
        weights = weights;
        queues = empty_lanes;
        cycle = build_cycle weights;
        cycle_index = 0;
      })

-- `_normalize_priority`
unfoldable pub normalize_priority : (String → String) → String → Result PriorityClass
normalize_priority strip_lower name =
    let name' = strip_lower name in
    if str_eq name' "high"
    then ok high
    else if str_eq name' "normal"
    then ok normal
    else if str_eq name' "bulk"
    then ok bulk
    else err value_error

unfoldable pub enqueue : String → PriorityClass → Exec RequestPriorityLane (Unit {0})
enqueue request_id p q =
    if str_eq request_id ""
    then (err value_error, q)
    else (ok tt, record q { queues = set_lane q.queues p (lane q.queues p ++ request_id ∷ []) })

-- `self._cycle[i]`, where the cycle has `high` past its end
unfoldable pub at : List PriorityClass → ℕ → PriorityClass
at [] i = high
at (p ∷ ps) zero = p
at (p ∷ ps) (suc i) = at ps i

abbrev pub is_empty : List String → Bool
is_empty [] = true
is_empty (r ∷ rs) = false

-- `popleft` from the queue of the lane, and what `dequeue` does where it is empty
abbrev pub pop_or :
    RequestPriorityLane
    → PriorityClass
    → List String
    → Option QueuedRequest × RequestPriorityLane
    → Option QueuedRequest × RequestPriorityLane
pop_or q p [] rest = rest
pop_or q p (r ∷ rs) rest =
    (some (record { request_id = r; priority = p }), record q { queues = set_lane q.queues p rs })

-- the loop of `dequeue`, for the number of places that are left to check
unfoldable pub scan : ℕ → RequestPriorityLane → Option QueuedRequest × RequestPriorityLane
unfolding at
scan zero q = (none, q)
scan (suc left) q =
    let p = at q.cycle (q.cycle_index % length q.cycle) in
    let q' = record q { cycle_index = (q.cycle_index + 1) % length q.cycle } in
    pop_or q' p (lane q'.queues p) (scan left q')

unfoldable pub dequeue : RequestPriorityLane → Option QueuedRequest × RequestPriorityLane
unfolding scan
dequeue q =
    if is_empty q.queues.high_lane && is_empty q.queues.normal_lane && is_empty q.queues.bulk_lane
    then (none, q)
    else scan (length q.cycle) q

unfoldable pub depth : RequestPriorityLane → Option PriorityClass → ℕ
depth q none = length q.queues.high_lane + length q.queues.normal_lane + length q.queues.bulk_lane
depth q (some p) = length (lane q.queues p)

unfoldable pub snapshot : RequestPriorityLane → LaneDepthSnapshot
snapshot q = record {
  high_depth = length q.queues.high_lane;
  normal_depth = length q.queues.normal_lane;
  bulk_depth = length q.queues.bulk_lane;
  total = length q.queues.high_lane + length q.queues.normal_lane + length q.queues.bulk_lane;
}

abbrev pub tagged : PriorityClass → List String → List QueuedRequest
tagged p = map (λ r. record { request_id = r; priority = p })

unfoldable pub pending : RequestPriorityLane → List QueuedRequest
pending q =
    tagged high q.queues.high_lane
    ++ tagged normal q.queues.normal_lane
    ++ tagged bulk q.queues.bulk_lane

unfoldable pub clear : RequestPriorityLane → RequestPriorityLane
clear q = record q { queues = empty_lanes; cycle_index = 0 }
