-- ===== src/Safety/PriorityLane/Fair.antt =====
-- `RequestPriorityLane.dequeue` of safety/priority_lane.py serves every lane in turn.
use nexus_llm_router.Prelude.{
  ℕ, zero, suc, ◌+◌, ◌-◌, ◌%◌, ◌<◌, ◌≡◌, ◌⊎◌, inl, inr, refl, sym, ap, ◌∙◌, arith, String, true,
  false, Bool-cases, ◌==◌, Option, none, some, List, [], ◌∷◌, length, leb, ltb, if◌then◌else◌,
}
use native.Mathlib.Nat.{mod-eq_of_lt, mod_self}
use nexus_llm_router.Safety.PriorityLane.{
  PriorityClass, high, normal, bulk, QueuedRequest, Lanes, lane, set_lane, RequestPriorityLane, at,
  is_empty, pop_or, scan,
}

-- Two classes are the same, or the lane of one stays when that of the other is set.
pub same_or_apart :
    (p p' : PriorityClass)
    → (p ≡ p')
      ⊎ ((q : Lanes (List String)) (a : List String) → lane (set_lane q p a) p' ≡ lane q p')
same_or_apart high high = inl refl
same_or_apart high normal = inr (λ q a. refl)
same_or_apart high bulk = inr (λ q a. refl)
same_or_apart normal high = inr (λ q a. refl)
same_or_apart normal normal = inl refl
same_or_apart normal bulk = inr (λ q a. refl)
same_or_apart bulk high = inr (λ q a. refl)
same_or_apart bulk normal = inr (λ q a. refl)
same_or_apart bulk bulk = inl refl

-- How far the place `j` is ahead of the cursor on a cycle.
unfoldable pub distance : (i j n : ℕ) → ℕ
distance i j n = if leb i j then j - i else j + n - i

next_place :
    (i n : ℕ) → i < n → (((i + 1) % n ≡ i + 1) × (i + 1 < n)) ⊎ (((i + 1) % n ≡ 0) × (i + 1 ≡ n))
next_place i n h = elim (Bool-cases (ltb (i + 1) n)) [
  | inl within ↦ inl (mod-eq_of_lt (ground (arith, within)), ground (arith, within))
  | inr last ↦ let e : i + 1 ≡ n = ground (arith, last, h) in inr (rw e (mod_self n), e)
]

distance_next :
    (i j n : ℕ)
    → i < n
    → j < n
    → (i ≡ j) ⊎ (((i + 1) % n < n) × (distance ((i + 1) % n) j n + 1 ≡ distance i j n))
unfolding distance
distance_next i j n h k = elim (Bool-cases (i == j)) [
  | inl same ↦ inl (ground (arith, same))
  | inr other ↦ elim (next_place i n h) [
    | inl (e, l) ↦ inr (omega (arith, e, l), ground (arith, e, l, other))
    | inr (e, l) ↦ inr (omega (arith, e, h), ground (arith, e, l, other))
  ]
]

empty_lane :
    (q : Lanes (List String)) (p p' : PriorityClass)
    → p' ≡ p
    → lane q p' ≡ []
    → is_empty (lane q p) ≡ true
empty_lane q p p' same e = rw (← same, e) refl

module _ (p : PriorityClass) (j : ℕ) where
  -- The cursor is nearer to the place, and the lane is as it was.
  pub record IsNearer (q q' : RequestPriorityLane) : Type 0 where
    pub same_cycle : q'.cycle ≡ q.cycle
    pub same_lane : lane q'.queues p ≡ lane q.queues p
    pub inside : q'.cycle_index < length q.cycle
    pub nearer :
        distance q'.cycle_index j (length q.cycle) < distance q.cycle_index j (length q.cycle)

  -- A request of the lane was served, or one of another lane and the cursor is nearer.
  abbrev pub Reaches : RequestPriorityLane → Option QueuedRequest → RequestPriorityLane → Type 0
  Reaches q none q' = false ≡ true
  Reaches q (some r) q' = (r.priority ≡ p) ⊎ IsNearer q q'

  -- The place `j` of the cycle is the lane's, the cursor is on the cycle, and the lane has a request.
  pub record IsWaiting (q : RequestPriorityLane) : Type 0 where
    pub cursor : q.cycle_index < length q.cycle
    pub place : j < length q.cycle
    pub lane_at : at q.cycle j ≡ p
    pub busy : is_empty (lane q.queues p) ≡ false

  abbrev moved : RequestPriorityLane → RequestPriorityLane
  moved q = record q { cycle_index = (q.cycle_index + 1) % length q.cycle }

  Reaches-moved :
      (q : RequestPriorityLane) (o : Option QueuedRequest) (q' : RequestPriorityLane)
      → distance (moved q).cycle_index j (length q.cycle) + 1
        ≡ distance q.cycle_index j (length q.cycle)
      → Reaches (moved q) o q'
      → Reaches q o q'
  Reaches-moved q none q' e h = h
  Reaches-moved q (some r) q' e (inl served) = inl served
  Reaches-moved q (some r) q' e (inr n) = inr (record {
    same_cycle = n.same_cycle;
    same_lane = n.same_lane;
    inside = n.inside;
    nearer = omega (arith, n.nearer, e);
  })

  -- What one step of the scan makes of the lane at the cursor.
  pop_or-Reaches :
      (q : RequestPriorityLane) (xs : List String) (o : Option QueuedRequest)
      (rest : RequestPriorityLane)
      → lane q.queues (at q.cycle q.cycle_index) ≡ xs
      → IsWaiting q
      → ((moved q).cycle_index < length q.cycle
          → distance (moved q).cycle_index j (length q.cycle) + 1
            ≡ distance q.cycle_index j (length q.cycle)
          → Reaches (moved q) o rest)
      → let (a, q') = pop_or (moved q) (at q.cycle q.cycle_index) xs (o, rest) in Reaches q a q'
  pop_or-Reaches q [] o rest e w go =
      elim (distance_next q.cycle_index j (length q.cycle) w.cursor w.place) [
        | inl same ↦
            let none_there =
              empty_lane q.queues p (at q.cycle q.cycle_index) (ap (at q.cycle) same ∙ w.lane_at)
                e in
            let clash = sym w.busy ∙ none_there in cc
        | inr (l, d) ↦ Reaches-moved q o rest d (go l d)
      ]
  pop_or-Reaches q (r ∷ rs) o rest e w go = elim (same_or_apart (at q.cycle q.cycle_index) p) [
    | inl same ↦ inl same
    | inr apart ↦ elim (distance_next q.cycle_index j (length q.cycle) w.cursor w.place) [
      | inl same ↦ inl (ap (at q.cycle) same ∙ w.lane_at)
      | inr (l, d) ↦ inr (record {
        same_cycle = refl;
        same_lane = apart q.queues rs;
        inside = l;
        nearer = omega (arith, d);
      })
    ]
  ]

  -- The scan reaches the place when the places left to check are more than the way there.
  pub scan-Reaches :
      (left : ℕ) (q : RequestPriorityLane)
      → IsWaiting q
      → distance q.cycle_index j (length q.cycle) < left
      → let (o, q') = scan left q in Reaches q o q'
  unfolding scan
  scan-Reaches zero q w h = ground (arith, h)
  scan-Reaches (suc left) q w h =
      let more =
        λ (l : (moved q).cycle_index < length q.cycle)
            (d : distance (moved q).cycle_index j (length q.cycle) + 1
              ≡ distance q.cycle_index j (length q.cycle)).
          scan-Reaches left (moved q)
            (record { cursor = l; place = w.place; lane_at = w.lane_at; busy = w.busy })
            (omega (arith, h, d)) in
      rw (mod-eq_of_lt w.cursor) (pop_or-Reaches q _ _ _ refl w more)

  pub distance-lt : (i n : ℕ) → i < n → j < n → distance i j n < n
  unfolding distance
  distance-lt i n h k = ground (arith, h, k)
