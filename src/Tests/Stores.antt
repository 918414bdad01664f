-- ===== src/Tests/Stores.antt =====
-- Runs of the idempotency store, the priority lanes and the fallback planner.
use nexus_llm_router.Prelude.{
  String, inl, inr, Bool-cases, eq_iff, str_eq, occurs, ℕ, ◌≤◌, ◌≡◌, refl, arith, true, none, some,
  ok, err, key_in_use, List, [], ◌∷◌,
}
use nexus_llm_router.Prelude.Choice.{keep}
use nexus_llm_router.Safety.Idempotency.{
  IdempotencyReservation, IdempotencyStore, replayed, select, reserve, get, put,
  evict_expired_locked, insert_or_ignore,
}
use nexus_llm_router.Safety.Idempotency.Ownership.{Stands}
use nexus_llm_router.Safety.Idempotency.Claims.{
  StoreCall, call_reserve, call_put, call_get, call_evict, after_calls, leave_alone, by_owner,
  calls-Stands,
}
use nexus_llm_router.Safety.Idempotency.Table.{IsKeyed, calls-IsKeyed}
use nexus_llm_router.Safety.Idempotency.Replay.{pending_row, reserve-excludes}
use nexus_llm_router.Safety.Idempotency.Exchange.{
  Exchange, IsExchange, exchange-replayed, completion, repeat, before_repeat, stored_row,
}
use nexus_llm_router.Safety.FallbackChain.{ProviderFallbackChainPlanner, plan}
use nexus_llm_router.Safety.FallbackChain.Promise.{Plans, plan-Plans}
use nexus_llm_router.Safety.FallbackChain.Repeats.{PlansRepeated, plan-occurs}
use nexus_llm_router.Safety.PriorityLane
use nexus_llm_router.Safety.PriorityLane.{
  RequestPriorityLane, Lanes, high, normal, bulk, default_weights, build_cycle, replicate, dequeue,
  lane, pending,
}
use nexus_llm_router.Safety.PriorityLane.Served.{IsFair}
use nexus_llm_router.Safety.PriorityLane.Promise.{
  Serves, dequeue-Serves, serves_within, dequeue-serves_within,
}
use nexus_llm_router.Safety.PriorityLane.Calls.{
  LaneCall, call_enqueue, call_dequeue, after_calls as after_lane_calls, calls-IsFair,
}

abbrev empty_store : IdempotencyStore
empty_store = record { ttl_seconds = 86400; rows = [] }

-- A claim, another caller's tries meanwhile, the response, and a second request.
abbrev exchange : Exchange
exchange = record {
  key = "k";
  tenant = "ada";
  lease = 300;
  token = "t1";
  claimed_at = 10;
  meanwhile = (20, call_reserve "k" "ada" 300 "t2") ∷ (30, call_put "k" "ada" "other" 200) ∷ [];
  response = "hello";
  status = 200;
  completed_at = 40;
  later = (50, call_evict) ∷ (60, call_get "k" "ada") ∷ [];
  second_lease = 300;
  second_token = "t3";
  repeated_at = 70;
}

exchange-IsExchange : IsExchange exchange empty_store
unfolding reserve put evict_expired_locked insert_or_ignore select keep leave_alone by_owner
exchange-IsExchange = record {
  keyed = tt;
  won = refl;
  held = refl;
  answered = refl;
  kept = refl;
  askable = record { some_key = refl; some_tenant = refl; some_time = refl };
  fresh = refl;
}

exchange-replayed_example :
    ((completion exchange empty_store).0 ≡ true)
    × ((repeat exchange empty_store ≡ ok (replayed (stored_row exchange empty_store)))
        × ((get "k" "ada" 70 (before_repeat exchange empty_store)).0
            ≡ some (stored_row exchange empty_store)))
exchange-replayed_example = exchange-replayed exchange empty_store exchange-IsExchange

abbrev held : IdempotencyReservation
held = record { key = "k"; tenant = "ada"; token = "t1" }

abbrev held_store : IdempotencyStore
held_store = record { ttl_seconds = 86400; rows = pending_row held 300 10 ∷ [] }

abbrev others : List (ℕ × StoreCall)
others = (20, call_reserve "k" "ada" 300 "t2") ∷ (30, call_put "k" "ada" "other" 200) ∷ []

held-Stands : Stands "k" "ada" (pending_row held 300 10) held_store.rows
unfolding select
held-Stands = refl

others-leave_alone : leave_alone (pending_row held 300 10) others ≡ true
unfolding leave_alone by_owner
others-leave_alone = refl

calls-Stands_example :
    Stands "k" "ada" (pending_row held 300 10) (after_calls others held_store).rows
calls-Stands_example =
    calls-Stands (pending_row held 300 10) others held_store held-Stands others-leave_alone

held_store-IsKeyed : IsKeyed held_store.rows
unfolding select
held_store-IsKeyed = (refl, tt)

calls-IsKeyed_example : IsKeyed (after_calls others held_store).rows
calls-IsKeyed_example = calls-IsKeyed others held_store held_store-IsKeyed

reserve-excludes_example :
    ((reserve "k" "ada" 60 "t4" 40 (after_calls others held_store)).0 ≡ err key_in_use)
    × ((get "k" "ada" 40 (after_calls others held_store)).0 ≡ none)
reserve-excludes_example =
    reserve-excludes held 300 10 held_store others 60 "t4" 40 held-Stands others-leave_alone
      (record { some_key = refl; some_tenant = refl; some_time = refl }) (omega arith)

-- Two requests of high priority and one in bulk.
abbrev queue : RequestPriorityLane
queue = record {
  weights = record { high_lane = 4; normal_lane = 2; bulk_lane = 1 };
  queues = record { high_lane = "a" ∷ "b" ∷ []; normal_lane = []; bulk_lane = "c" ∷ [] };
  cycle = build_cycle (record { high_lane = 4; normal_lane = 2; bulk_lane = 1 });
  cycle_index = 0;
}

queue-IsFair : IsFair queue
unfolding build_cycle replicate
queue-IsFair = record { cycle_of = refl; weighted = weighted; cursor = omega arith }
  where
    weighted : (p : PriorityLane.PriorityClass) → 1 ≤ lane queue.weights p
    weighted high = omega arith
    weighted normal = omega arith
    weighted bulk = omega arith

dequeue-Serves_example : let (o, q') = dequeue queue in Serves queue o q'
dequeue-Serves_example = dequeue-Serves queue queue-IsFair

dequeue-serves_within_example : serves_within bulk 7 queue ≡ true
dequeue-serves_within_example = dequeue-serves_within queue bulk queue-IsFair refl

abbrev default_queue : RequestPriorityLane
default_queue = record {
  weights = record { high_lane = 4; normal_lane = 2; bulk_lane = 1 };
  queues = record { high_lane = []; normal_lane = []; bulk_lane = [] };
  cycle = build_cycle (record { high_lane = 4; normal_lane = 2; bulk_lane = 1 });
  cycle_index = 0;
}

default_queue-init : PriorityLane.init default_weights ≡ ok default_queue
unfolding PriorityLane.init
default_queue-init = refl

abbrev lane_calls : List LaneCall
lane_calls = call_enqueue "a" high ∷ call_dequeue ∷ call_enqueue "b" bulk ∷ []

calls-IsFair_example : IsFair (after_lane_calls lane_calls default_queue)
calls-IsFair_example = calls-IsFair default_weights default_queue lane_calls default_queue-init

abbrev planner : ProviderFallbackChainPlanner
planner = record { preference_order = "b" ∷ "a" ∷ [] }

planner-distinct : (p : String) → occurs p ("b" ∷ "a" ∷ []) ≤ 1
unfolding occurs
planner-distinct p = elim (Bool-cases (str_eq "b" p)) [
  | inl same ↦ let e : "b" ≡ p = ground (arith, same, eq_iff "b" p) in rw (← e) (omega arith)
  | inr other ↦ ground (arith, other)
]

plan-Plans_example :
    Plans
      ("a" ∷ "b" ∷ "c" ∷ "a" ∷ [])
      ("c" ∷ [])
      (some "a")
      ("b" ∷ "a" ∷ [])
      (plan planner ("a" ∷ "b" ∷ "c" ∷ "a" ∷ []) ("c" ∷ []) (some "a") none)
plan-Plans_example =
    plan-Plans planner ("a" ∷ "b" ∷ "c" ∷ "a" ∷ []) ("c" ∷ []) (some "a") none planner-distinct

-- The preferences name "a" twice.
plan-occurs_example :
    PlansRepeated
      ("a" ∷ "b" ∷ [])
      []
      ("a" ∷ "a" ∷ [])
      (plan (record { preference_order = "a" ∷ "a" ∷ [] }) ("a" ∷ "b" ∷ []) [] none none)
plan-occurs_example =
    plan-occurs (record { preference_order = "a" ∷ "a" ∷ [] }) ("a" ∷ "b" ∷ []) [] none
