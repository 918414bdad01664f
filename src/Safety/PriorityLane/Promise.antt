-- ===== src/Safety/PriorityLane/Promise.antt =====
-- The promises of `RequestPriorityLane` of safety/priority_lane.py, for every sequence of calls.
use nexus_llm_router.Prelude.{
  ℕ, zero, suc, ◌+◌, ◌<◌, ◌≡◌, ◌⊎◌, inl, inr, refl, arith, String, Bool, true, false, Option, none,
  some, List, [], ◌∷◌, length, if◌then◌else◌,
}
use nexus_llm_router.Safety.PriorityLane.{
  PriorityClass, high, normal, bulk, QueuedRequest, Lanes, lane, RequestPriorityLane, is_empty,
  scan, dequeue, pending, empty_lanes,
}
use nexus_llm_router.Safety.PriorityLane.Fair.{
  distance, IsNearer, Reaches, IsWaiting, scan-Reaches, distance-lt,
}
use nexus_llm_router.Safety.PriorityLane.Served.{
  IsFair, length-build_cycle, IsFair-IsWaiting, Takes, scan-Takes,
}

rebuilt :
    (q : Lanes (List String)) (h n b : List String)
    → q.high_lane ≡ h
    → q.normal_lane ≡ n
    → q.bulk_lane ≡ b
    → q ≡ record { high_lane = h; normal_lane = n; bulk_lane = b }
rebuilt q h n b e f g = rw (← e, ← f, ← g) refl

-- Every lane is empty, or one has a request.
lanes_cases :
    (q : Lanes (List String))
    → (q ≡ empty_lanes) ⊎ ((p : PriorityClass) × (is_empty (lane q p) ≡ false))
lanes_cases q = go q.high_lane q.normal_lane q.bulk_lane refl refl refl
  where
    go :
        (h n b : List String)
        → q.high_lane ≡ h
        → q.normal_lane ≡ n
        → q.bulk_lane ≡ b
        → (q ≡ empty_lanes) ⊎ ((p : PriorityClass) × (is_empty (lane q p) ≡ false))
    go [] [] [] e f g = inl (rebuilt q [] [] [] e f g)
    go (x ∷ xs) n b e f g = inr (high, rw e refl)
    go [] (x ∷ xs) b e f g = inr (normal, rw f refl)
    go [] [] (x ∷ xs) e f g = inr (bulk, rw g refl)

-- What `dequeue` answers and leaves: the first request of one lane, which it takes, and the other lanes
-- stay; or nothing, where nothing is pending.
abbrev pub Serves : RequestPriorityLane → Option QueuedRequest → RequestPriorityLane → Type 0
Serves q none q' = (q' ≡ q) × (pending q ≡ [])
Serves q (some r) q' = Takes q.queues (some r) q'.queues

busy_scan :
    (q : RequestPriorityLane) (p : PriorityClass)
    → is_empty (lane q.queues p) ≡ false
    → dequeue q ≡ scan (length q.cycle) q
unfolding dequeue
busy_scan q high e = ground (arith, e)
busy_scan q normal e = ground (arith, e)
busy_scan q bulk e = ground (arith, e)

Reaches-Serves :
    (p : PriorityClass) (j : ℕ) (q : RequestPriorityLane) (o : Option QueuedRequest)
    (q' : RequestPriorityLane)
    → Reaches p j q o q'
    → Takes q.queues o q'.queues
    → Serves q o q'
Reaches-Serves p j q none q' h t = cc
Reaches-Serves p j q (some r) q' h t = t

-- `dequeue` ends with a request whenever one is pending, within one turn of the cycle: it answers the
-- first request of a lane, takes that one and no other; it answers none only when nothing is pending, and
-- then changes nothing. The cycle is that of the weights and the cursor is on it.
pub dequeue-Serves : (q : RequestPriorityLane) → IsFair q → let (o, q') = dequeue q in Serves q o q'
unfolding dequeue pending
dequeue-Serves q f = elim (lanes_cases q.queues) [
  | inl empty ↦ rw empty (refl, refl)
  | inr (p, busy) ↦
      let (j, w) = IsFair-IsWaiting q p f busy in
      rw (busy_scan q p busy) (
        Reaches-Serves p j q _ _
          (scan-Reaches p j (length q.cycle) q w (distance-lt p j _ _ w.cursor w.place))
          (scan-Takes (length q.cycle) q))
]

abbrev is_class : PriorityClass → PriorityClass → Bool
is_class high high = true
is_class normal normal = true
is_class bulk bulk = true
is_class _ _ = false

is_class_refl : (p : PriorityClass) → is_class p p ≡ true
is_class_refl high = refl
is_class_refl normal = refl
is_class_refl bulk = refl

-- Whether one of the next calls of `dequeue` answers a request of the lane.
abbrev answers_lane : PriorityClass → Option QueuedRequest → Bool
answers_lane p none = false
answers_lane p (some r) = is_class r.priority p

unfoldable pub serves_within : PriorityClass → ℕ → RequestPriorityLane → Bool
unfolding dequeue
serves_within p zero q = false
serves_within p (suc n) q =
    let (o, q') = dequeue q in
    let rest = serves_within p n q' in if answers_lane p o then true else rest

Reaches-within :
    (p : PriorityClass) (j : ℕ) (q : RequestPriorityLane) (o : Option QueuedRequest)
    (q' : RequestPriorityLane) (rest : Bool)
    → Reaches p j q o q'
    → (IsNearer p j q q' → rest ≡ true)
    → (if answers_lane p o then true else rest) ≡ true
Reaches-within p j q none q' rest h go = cc
Reaches-within p j q (some r) q' rest (inl same) go = rw (same, is_class_refl p) refl
Reaches-within p j q (some r) q' rest (inr near) go = rw (go near) (ground arith)

waiting-served :
    (p : PriorityClass) (j n : ℕ) (q : RequestPriorityLane)
    → IsWaiting p j q
    → distance q.cycle_index j (length q.cycle) < n
    → serves_within p n q ≡ true
unfolding serves_within
waiting-served p j zero q w h = ground (arith, h)
waiting-served p j (suc n) q w h = rw (busy_scan q p w.busy) (
    Reaches-within p j q _ _ _
      (scan-Reaches p j (length q.cycle) q w (distance-lt p j _ _ w.cursor w.place))
      (λ near.
        waiting-served p j n (scan (length q.cycle) q).1
          (record {
            cursor = rw near.same_cycle near.inside;
            place = rw near.same_cycle w.place;
            lane_at = rw near.same_cycle w.lane_at;
            busy = rw near.same_lane w.busy;
          })
          (rw near.same_cycle (omega (arith, near.nearer, h)))))

-- No lane starves: when a lane has a request, one of the next `dequeue` calls, at most as many as the
-- weights add up to, answers a request of that lane, whatever the other lanes hold. The cycle is that of
-- the weights and the cursor is on it.
pub dequeue-serves_within :
    (q : RequestPriorityLane) (p : PriorityClass)
    → IsFair q
    → is_empty (lane q.queues p) ≡ false
    → serves_within p (q.weights.high_lane + q.weights.normal_lane + q.weights.bulk_lane) q ≡ true
dequeue-serves_within q p f busy =
    let (j, w) = IsFair-IsWaiting q p f busy in
    waiting-served p j _ q w (
      rw (← length-build_cycle q.weights, ← f.cycle_of)
        (distance-lt p j q.cycle_index (length q.cycle) w.cursor w.place))
