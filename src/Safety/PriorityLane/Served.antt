-- ===== src/Safety/PriorityLane/Served.antt =====
-- What `RequestPriorityLane` of safety/priority_lane.py promises: three queues, first in first out, of
-- which none waits for longer than one cycle.
use nexus_llm_router.Prelude.{
  ℕ, zero, suc, ◌+◌, ◌%◌, ◌≤◌, ◌<◌, ◌≡◌, refl, ap, ◌∙◌, arith, String, false, Option, none, some,
  List, [], ◌∷◌, ◌++◌, length, length-append,
}
use native.Mathlib.Nat.{mod-lt}
use nexus_llm_router.Safety.PriorityLane.{
  PriorityClass, high, normal, bulk, QueuedRequest, Lanes, lane, set_lane, RequestPriorityLane,
  replicate, build_cycle, at, is_empty, pop_or, scan,
}
use nexus_llm_router.Safety.PriorityLane.Fair.{IsWaiting}

-- The cycle is that of the weights, no weight is 0, and the cursor is on the cycle.
pub record IsFair (q : RequestPriorityLane) : Type 0 where
  pub cycle_of : q.cycle ≡ build_cycle q.weights
  pub weighted : (p : PriorityClass) → 1 ≤ lane q.weights p
  pub cursor : q.cycle_index < length q.cycle

at-append : (xs ys : List PriorityClass) (i k : ℕ) → i ≡ length xs + k → at (xs ++ ys) i ≡ at ys k
unfolding at
at-append [] ys i k e = ap (at ys) (omega (arith, e))
at-append (x ∷ xs) ys zero k e = ground (arith, e)
at-append (x ∷ xs) ys (suc i) k e = at-append xs ys i k (omega (arith, e))

at-replicate :
    (n : ℕ) (p : PriorityClass) (ys : List PriorityClass) → 1 ≤ n → at (replicate n p ++ ys) 0 ≡ p
unfolding at replicate
at-replicate zero p ys h = ground (arith, h)
at-replicate (suc n) p ys h = refl

at-replicate_alone : (n : ℕ) (p : PriorityClass) → 1 ≤ n → at (replicate n p) 0 ≡ p
unfolding at replicate
at-replicate_alone zero p h = ground (arith, h)
at-replicate_alone (suc n) p h = refl

length-replicate : (n : ℕ) (p : PriorityClass) → length (replicate n p) ≡ n
unfolding replicate
length-replicate zero p = refl
length-replicate (suc n) p = ap suc (length-replicate n p)

pub length-build_cycle :
    (w : Lanes ℕ) → length (build_cycle w) ≡ w.high_lane + w.normal_lane + w.bulk_lane
unfolding build_cycle
length-build_cycle w =
    let a =
      length-append (replicate w.high_lane high)
        (replicate w.normal_lane normal ++ replicate w.bulk_lane bulk) in
    let b = length-append (replicate w.normal_lane normal) (replicate w.bulk_lane bulk) in
    let c : length (
          replicate w.high_lane high
          ++ (replicate w.normal_lane normal ++ replicate w.bulk_lane bulk))
        ≡ w.high_lane + w.normal_lane + w.bulk_lane =
      omega (
        arith,
        a,
        b,
        length-replicate w.high_lane high,
        length-replicate w.normal_lane normal,
        length-replicate w.bulk_lane bulk,
      ) in
    c

-- Every lane has a place on the cycle.
place_of :
    (w : Lanes ℕ)
    → ((p : PriorityClass) → 1 ≤ lane w p)
    → (p : PriorityClass) → (j : ℕ) × (j < length (build_cycle w)) × (at (build_cycle w) j ≡ p)
unfolding build_cycle
place_of w h high =
    (0, omega (arith, length-build_cycle w, h high), at-replicate w.high_lane high _ (h high))
place_of w h normal = (
  w.high_lane,
  omega (arith, length-build_cycle w, h normal),
  at-append (replicate w.high_lane high) _ w.high_lane 0
        (omega (arith, length-replicate w.high_lane high))
      ∙ at-replicate w.normal_lane normal _ (h normal),
)
place_of w h bulk = (
  w.high_lane + w.normal_lane,
  omega (arith, length-build_cycle w, h bulk),
  at-append (replicate w.high_lane high) _ (w.high_lane + w.normal_lane) w.normal_lane
        (omega (arith, length-replicate w.high_lane high))
      ∙ (at-append (replicate w.normal_lane normal) _ w.normal_lane 0
            (omega (arith, length-replicate w.normal_lane normal))
          ∙ at-replicate_alone w.bulk_lane bulk (h bulk)),
)

pub IsFair-IsWaiting :
    (q : RequestPriorityLane) (p : PriorityClass)
    → IsFair q
    → is_empty (lane q.queues p) ≡ false
    → (j : ℕ) × IsWaiting p j q
IsFair-IsWaiting q p f busy =
    let (j, l, e) = place_of q.weights f.weighted p in
    (
      j,
      record { cursor = f.cursor; place = rw f.cycle_of l; lane_at = rw f.cycle_of e; busy = busy },
    )

-- The first request of one lane is taken, and the other lanes stay; or nothing is.
abbrev pub Takes : Lanes (List String) → Option QueuedRequest → Lanes (List String) → Type 0
Takes before none now = now ≡ before
Takes before (some r) now = before ≡ set_lane now r.priority (r.request_id ∷ lane now r.priority)

set_lane-set_lane :
    (q : Lanes (List String)) (p : PriorityClass) (r : String) (rs : List String)
    → lane q p ≡ r ∷ rs
    → q ≡ set_lane (set_lane q p rs) p (r ∷ lane (set_lane q p rs) p)
set_lane-set_lane q high r rs e = rw (← e) refl
set_lane-set_lane q normal r rs e = rw (← e) refl
set_lane-set_lane q bulk r rs e = rw (← e) refl

pop_or-Takes :
    (q : RequestPriorityLane) (p : PriorityClass) (xs : List String) (o : Option QueuedRequest)
    (rest : RequestPriorityLane)
    → lane q.queues p ≡ xs
    → Takes q.queues o rest.queues
    → let (a, q') = pop_or q p xs (o, rest) in Takes q.queues a q'.queues
pop_or-Takes q p [] o rest e h = h
pop_or-Takes q p (r ∷ rs) o rest e h = set_lane-set_lane q.queues p r rs e

pub scan-Takes :
    (left : ℕ) (q : RequestPriorityLane) → let (o, q') = scan left q in Takes q.queues o q'.queues
unfolding scan
scan-Takes zero q = refl
scan-Takes (suc left) q =
    let q' = record q { cycle_index = (q.cycle_index + 1) % length q.cycle } in
    pop_or-Takes q' _ _ _ _ refl (scan-Takes left q')

-- `dequeue` keeps what is fair.
pop_or-IsFair :
    (q : RequestPriorityLane) (p : PriorityClass) (xs : List String) (o : Option QueuedRequest)
    (rest : RequestPriorityLane)
    → IsFair q
    → IsFair rest
    → IsFair (pop_or q p xs (o, rest)).1
pop_or-IsFair q p [] o rest f h = h
pop_or-IsFair q p (r ∷ rs) o rest f h = record {
  cycle_of = f.cycle_of;
  weighted = f.weighted;
  cursor = f.cursor;
}

pub scan-IsFair : (left : ℕ) (q : RequestPriorityLane) → IsFair q → IsFair (scan left q).1
unfolding scan
scan-IsFair zero q f = f
scan-IsFair (suc left) q f =
    let q' = record q { cycle_index = (q.cycle_index + 1) % length q.cycle } in
    let f' : IsFair q' = record {
      cycle_of = f.cycle_of;
      weighted = f.weighted;
      cursor = mod-lt (q.cycle_index + 1) (omega (arith, f.cursor));
    } in
    pop_or-IsFair q' _ _ _ _ f' (scan-IsFair left q' f')
