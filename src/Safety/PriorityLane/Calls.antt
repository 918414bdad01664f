-- ===== src/Safety/PriorityLane/Calls.antt =====
-- Sequences of calls of `RequestPriorityLane` of safety/priority_lane.py.
use nexus_llm_router.Prelude.{
  ℕ, ◌≤◌, ◌≡◌, inl, inr, refl, subst, arith, String, false, Bool-cases, Result, ok, err, List, [],
  ◌∷◌, length, ◌&&◌, ◌||◌, str_eq,
}
use nexus_llm_router.Prelude.Int.{ℤ, pos, negsuc, pos_part, ltb_ℤ}
use nexus_llm_router.Safety.PriorityLane.{
  PriorityClass, high, normal, bulk, Lanes, lane, RequestPriorityLane, init, is_empty, enqueue,
  dequeue, clear,
}
use nexus_llm_router.Safety.PriorityLane.Served.{IsFair, length-build_cycle, scan-IsFair}

-- A call of the queue.
pub data LaneCall : Type 0 where
  call_enqueue : String → PriorityClass → LaneCall
  call_dequeue call_clear : LaneCall

abbrev pub after_call : LaneCall → RequestPriorityLane → RequestPriorityLane
after_call (call_enqueue r p) q = (enqueue r p q).1
after_call call_dequeue q = (dequeue q).1
after_call call_clear q = clear q

abbrev pub after_calls : List LaneCall → RequestPriorityLane → RequestPriorityLane
after_calls [] q = q
after_calls (c ∷ cs) q = after_calls cs (after_call c q)

enqueue-IsFair :
    (r : String) (p : PriorityClass) (q : RequestPriorityLane) → IsFair q → IsFair (enqueue r p q).1
unfolding enqueue
enqueue-IsFair r p q f = elim (Bool-cases (str_eq r "")) [
  | inl empty ↦ rw empty f
  | inr full ↦ rw full (record { cycle_of = f.cycle_of; weighted = f.weighted; cursor = f.cursor })
]

dequeue-IsFair : (q : RequestPriorityLane) → IsFair q → IsFair (dequeue q).1
unfolding dequeue
dequeue-IsFair q f =
    elim (Bool-cases (
      is_empty q.queues.high_lane
      && is_empty q.queues.normal_lane
      && is_empty q.queues.bulk_lane)) [
        | inl empty ↦ rw empty f
        | inr busy ↦ rw busy (scan-IsFair (length q.cycle) q f)
      ]

abbrev Fairly : Result RequestPriorityLane → Type 0
Fairly (ok q) = IsFair q
Fairly (err e) = Unit {0}

weight_of : (z : ℤ) → ltb_ℤ z (pos 1) ≡ false → 1 ≤ pos_part z
weight_of (pos n) h = ground (arith, h)
weight_of (negsuc n) h = ground (arith, h)

weights_of :
    (w : Lanes ℤ)
    → (ltb_ℤ w.high_lane (pos 1) || ltb_ℤ w.normal_lane (pos 1) || ltb_ℤ w.bulk_lane (pos 1))
      ≡ false
    → (p : PriorityClass) → ltb_ℤ (lane w p) (pos 1) ≡ false
weights_of w h high = ground (arith, h)
weights_of w h normal = ground (arith, h)
weights_of w h bulk = ground (arith, h)

abbrev parts : Lanes ℤ → Lanes ℕ
parts w = record {
  high_lane = pos_part w.high_lane;
  normal_lane = pos_part w.normal_lane;
  bulk_lane = pos_part w.bulk_lane;
}

lane-parts : (w : Lanes ℤ) (p : PriorityClass) → lane (parts w) p ≡ pos_part (lane w p)
lane-parts w high = refl
lane-parts w normal = refl
lane-parts w bulk = refl

init-Fairly : (resolved : Lanes ℤ) → Fairly (init resolved)
unfolding init
init-Fairly resolved =
    elim (Bool-cases (
      ltb_ℤ resolved.high_lane (pos 1)
      || ltb_ℤ resolved.normal_lane (pos 1)
      || ltb_ℤ resolved.bulk_lane (pos 1))) [
        | inl bad ↦ rw bad tt
        | inr good ↦
            let weighted : (p : PriorityClass) → 1 ≤ lane (parts resolved) p =
              λ (p : PriorityClass).
                rw (lane-parts resolved p)
                  (weight_of (lane resolved p) (weights_of resolved good p)) in
            rw good (record {
              cycle_of = refl;
              weighted = weighted;
              cursor =
                  rw (length-build_cycle (parts resolved))
                    (omega (arith, weight_of resolved.high_lane (weights_of resolved good high)));
            })
      ]

init-IsFair : (resolved : Lanes ℤ) (q : RequestPriorityLane) → init resolved ≡ ok q → IsFair q
init-IsFair resolved q e = subst Fairly e (init-Fairly resolved)

after_call-IsFair : (c : LaneCall) (q : RequestPriorityLane) → IsFair q → IsFair (after_call c q)
unfolding clear
after_call-IsFair (call_enqueue r p) q f = enqueue-IsFair r p q f
after_call-IsFair call_dequeue q f = dequeue-IsFair q f
after_call-IsFair call_clear q f = record {
  cycle_of = f.cycle_of;
  weighted = f.weighted;
  cursor = omega (arith, f.cursor);
}

after_calls-IsFair :
    (cs : List LaneCall) (q : RequestPriorityLane) → IsFair q → IsFair (after_calls cs q)
after_calls-IsFair [] q f = f
after_calls-IsFair (c ∷ cs) q f = after_calls-IsFair cs _ (after_call-IsFair c q f)

-- The fairness invariant holds after every sequence of calls of `enqueue`, `dequeue` and `clear` on a queue
-- that the constructor accepted: the cycle is that of the weights, no weight is 0, and the cursor is
-- on the cycle.
pub calls-IsFair :
    (resolved : Lanes ℤ) (q : RequestPriorityLane) (cs : List LaneCall)
    → init resolved ≡ ok q
    → IsFair (after_calls cs q)
calls-IsFair resolved q cs e = after_calls-IsFair cs q (init-IsFair resolved q e)
