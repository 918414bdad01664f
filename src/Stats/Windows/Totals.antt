-- ===== src/Stats/Windows/Totals.antt =====
-- A window's total is the sum of what the history holds within the window.
use nexus_llm_router.Prelude.{
  ℕ, ◌+◌, ◌≤◌, ◌≡◌, refl, String, List, [], ◌∷◌, ◌++◌, ltb, if◌then◌else◌, arith, str_eq, eq_iff,
  Bool-cases, inl, inr,
}
use native.Mathlib.Nat.{le_trans}
use nexus_llm_router.Prelude.Dict
use nexus_llm_router.Prelude.Dict.{
  Dict, get_or-put, get_or-remove, setdefault-get_or, get_or-put-setdefault,
}
use nexus_llm_router.Stats.Windows.{Samples, drop_stale, prune, record_sample, total, read_total}

-- What samples hold within the window that ends at `now`.
unfoldable pub recent : ℕ → ℕ → Samples → ℕ
recent window now [] = 0
recent window now ((t, n) ∷ es) = (if ltb (t + window) now then 0 else n) + recent window now es

-- The samples are in the order of their times, none later than `bound`.
abbrev pub InOrder : ℕ → Samples → ℕ → Type 0
InOrder from [] bound = from ≤ bound
InOrder from ((t, _) ∷ es) bound = (from ≤ t) × InOrder t es bound

pub recent-append :
    (window now : ℕ) (es : Samples) (t n : ℕ)
    → recent window now (es ++ (t, n) ∷ []) ≡ recent window now es + recent window now ((t, n) ∷ [])
unfolding recent
recent-append window now [] t n = omega arith
recent-append window now ((u, m) ∷ es) t n = omega (arith, recent-append window now es t n)

recent-drop_stale :
    (window now t : ℕ) (es : Samples)
    → t ≤ now
    → recent window now (drop_stale window t es) ≡ recent window now es
unfolding recent drop_stale
recent-drop_stale window now t [] h = refl
recent-drop_stale window now t ((u, m) ∷ es) h = ground (arith, recent-drop_stale window now t es h)

total_fresh :
    (window now from bound : ℕ) (es : Samples)
    → InOrder from es bound
    → now ≤ from + window
    → total es ≡ recent window now es
unfolding total recent
total_fresh window now from bound [] o h = refl
total_fresh window now from bound ((t, n) ∷ es) o h =
    ground (arith, total_fresh window now t bound es o.1)

total-drop_stale :
    (window now from bound : ℕ) (es : Samples)
    → InOrder from es bound
    → total (drop_stale window now es) ≡ recent window now es
unfolding total recent drop_stale
total-drop_stale window now from bound [] o = refl
total-drop_stale window now from bound ((t, n) ∷ es) o =
    ground
      (arith, total-drop_stale window now t bound es o.1, total_fresh window now t bound es o.1)

InOrder-append :
    (from bound t n : ℕ) (es : Samples)
    → InOrder from es bound
    → bound ≤ t
    → InOrder from (es ++ (t, n) ∷ []) t
InOrder-append from bound t n [] o h = (omega arith, omega arith)
InOrder-append from bound t n ((u, m) ∷ es) o h = (o.0, InOrder-append u bound t n es o.1 h)

InOrder-weaken :
    (from to bound : ℕ) (es : Samples) → to ≤ from → InOrder from es bound → InOrder to es bound
InOrder-weaken from to bound [] h o = omega arith
InOrder-weaken from to bound ((u, m) ∷ es) h o = (omega arith, o.1)

InOrder-later :
    (from bound later : ℕ) (es : Samples)
    → bound ≤ later
    → InOrder from es bound
    → InOrder from es later
InOrder-later from bound later [] h o = omega arith
InOrder-later from bound later ((u, m) ∷ es) h o = (o.0, InOrder-later u bound later es h o.1)

InOrder-drop_stale :
    (window now from bound : ℕ) (es : Samples)
    → InOrder from es bound
    → InOrder from (drop_stale window now es) bound
unfolding drop_stale
InOrder-drop_stale window now from bound [] o = o
InOrder-drop_stale window now from bound ((t, n) ∷ es) o = ground (
  arith,
  InOrder-drop_stale window now t bound es o.1,
  InOrder-weaken t from bound (drop_stale window now es) o.0,
)

abbrev samples_of : Dict Samples → String → Samples
samples_of d key = Dict.get_or d key []

samples_of-prune :
    (window now : ℕ) (key k : String) (d : Dict Samples)
    → samples_of (prune window key now d) k
      ≡ (if str_eq key k then drop_stale window now (samples_of d key) else samples_of d k)
unfolding prune
samples_of-prune window now key k d =
    let es = drop_stale window now (samples_of d key) in
    ground (arith, eq_iff key k, get_or-put d key k es [], get_or-remove d key k [])

samples_of-record :
    (window amount now : ℕ) (key k : String) (d : Dict Samples)
    → samples_of (record_sample window key amount now d) k ≡ (
        if str_eq key k
        then drop_stale window now (samples_of d key ++ (now, amount) ∷ [])
        else samples_of d k)
unfolding record_sample
samples_of-record window amount now key k d =
    let d' = (Dict.setdefault d key []).1 in
    let es = samples_of d key ++ (now, amount) ∷ [] in
    ground (
      arith,
      eq_iff key k,
      setdefault-get_or d key [],
      samples_of-prune window now key k (Dict.put d' key es),
      get_or-put-setdefault d key [] es [] key,
      get_or-put-setdefault d key [] es [] k,
      eq_iff key key,
    )

-- A recorded amount: the key, the amount and the reading of the clock.
pub record Entry : Type 0 where
  pub key : String
  pub amount : ℕ
  pub at : ℕ

unfoldable pub record_all : ℕ → List Entry → Dict Samples → Dict Samples
record_all window [] d = d
record_all window (e ∷ es) d = record_all window es (record_sample window e.key e.amount e.at d)

-- What the history holds for one key.
pub samples_for : String → List Entry → Samples
samples_for k [] = []
samples_for k (e ∷ es) =
    let rest = samples_for k es in if str_eq e.key k then (e.at, e.amount) ∷ rest else rest

-- The clock does not go back during the history.
abbrev pub Ordered : ℕ → List Entry → Type 0
Ordered t [] = Unit {0}
Ordered t (e ∷ es) = (t ≤ e.at) × Ordered e.at es

abbrev pub last_at : ℕ → List Entry → ℕ
last_at t [] = t
last_at t (e ∷ es) = last_at e.at es

le-last_at : (t : ℕ) (es : List Entry) → Ordered t es → t ≤ last_at t es
le-last_at t [] h = omega arith
le-last_at t (e ∷ es) h = omega (arith, le-last_at e.at es h.1)

module _ (window : ℕ) (k : String) where
  InOrder-record :
      (t : ℕ) (e : Entry) (d : Dict Samples)
      → InOrder 0 (samples_of d k) t
      → t ≤ e.at
      → InOrder 0 (samples_of (record_sample window e.key e.amount e.at d) k) e.at
  InOrder-record t e d o h = elim (Bool-cases (str_eq e.key k)) [
    | inl same ↦
        rw (samples_of-record, same)
          (let here : e.key ≡ k = (eq_iff e.key k).0 same in
            rw here (
              InOrder-drop_stale window e.at 0 e.at (samples_of d k ++ (e.at, e.amount) ∷ [])
                (InOrder-append 0 t e.at e.amount (samples_of d k) o h)))
    | inr other ↦ rw (samples_of-record, other) (InOrder-later 0 t e.at (samples_of d k) h o)
  ]

  recent-record :
      (now : ℕ) (e : Entry) (d : Dict Samples)
      → e.at ≤ now
      → recent window now (samples_of (record_sample window e.key e.amount e.at d) k)
        ≡ recent window now (samples_of d k) + recent window now (samples_for k (e ∷ []))
  unfolding samples_for recent
  recent-record now e d h = ground (
    arith,
    eq_iff e.key k,
    samples_of-record window e.amount e.at e.key k d,
    recent-drop_stale window now e.at (samples_of d e.key ++ (e.at, e.amount) ∷ []) h,
    recent-append window now (samples_of d e.key) e.at e.amount,
  )

  recent-record_all :
      (now t : ℕ) (es : List Entry) (d : Dict Samples)
      → Ordered t es
      → last_at t es ≤ now
      → recent window now (samples_of (record_all window es d) k)
        ≡ recent window now (samples_of d k) + recent window now (samples_for k es)
  unfolding record_all samples_for recent
  recent-record_all now t [] d o h = omega arith
  recent-record_all now t (e ∷ es) d o h =
      let d' = record_sample window e.key e.amount e.at d in
      ground (
        arith,
        recent-record_all now e.at es d' o.1 h,
        recent-record now e d (le_trans (le-last_at e.at es o.1) h),
      )

  InOrder-record_all :
      (t : ℕ) (es : List Entry) (d : Dict Samples)
      → InOrder 0 (samples_of d k) t
      → Ordered t es
      → InOrder 0 (samples_of (record_all window es d) k) (last_at t es)
  unfolding record_all
  InOrder-record_all t [] d o h = o
  InOrder-record_all t (e ∷ es) d o h =
      InOrder-record_all e.at es (record_sample window e.key e.amount e.at d)
        (InOrder-record t e d o h.0) h.1

  empty_recent : (now : ℕ) → recent window now (samples_of [] k) ≡ 0
  unfolding recent Dict.get_or
  empty_recent now = refl

  -- What a window reports for a key is the sum of what the whole history recorded for the key within
  -- the window: pruning drops nothing that still counts and keeps nothing that does not, whatever was
  -- recorded for other keys in between, as long as the clock does not go back.
  pub read_total-record_all :
      (now : ℕ) (es : List Entry)
      → Ordered 0 es
      → last_at 0 es ≤ now
      → (read_total window k now (record_all window es [])).0 ≡ recent window now (samples_for k es)
  unfolding read_total
  read_total-record_all now es o h = ground (
    arith,
    eq_iff k k,
    samples_of-prune window now k k (record_all window es []),
    total-drop_stale window now 0 (last_at 0 es) (samples_of (record_all window es []) k)
        (InOrder-record_all 0 es [] (unfold Dict.get_or in omega arith) o),
    recent-record_all now 0 es [] o h,
    empty_recent now,
  )
