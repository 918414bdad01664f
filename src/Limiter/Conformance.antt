-- ===== src/Limiter/Conformance.antt =====
-- How many tokens a limiter lets through.
use nexus_llm_router.Prelude.{
  ℕ, ◌+◌, ◌-◌, ◌*◌, ◌≤◌, ◌≡◌, ◌⊎◌, ap, min, String, false, Option, none, some, List, [], ◌∷◌,
  Result, ok, err, rate_limit_exceeded, ltb, if◌then◌else◌, arith, str_eq, eq_iff, Option-cases,
  inl, inr,
}
use native.Mathlib.Nat.{add-mul, mul-le-mul_right}
use nexus_llm_router.Prelude.Dict
use nexus_llm_router.Prelude.Dict.{
  Dict, setdefault-get_or, get-put-setdefault, get-eq-none→get_or, get-eq-some→get_or,
}
use nexus_llm_router.Limiter.{Bucket, TokenBucketRateLimiter, refilled, assert_allowed}

-- A call of `assert_allowed`: the key, the tokens and the reading of the clock.
pub record Call : Type 0 where
  pub key : String
  pub tokens : ℕ
  pub now : ℕ

-- The parts that an accepted call takes.
abbrev taken : ℕ → Result (Unit {0}) → ℕ
taken cost (ok _) = cost
taken cost (err _) = 0

-- The calls in their order, and the parts that the accepted calls of one key took.
unfoldable pub run : String → List Call → TokenBucketRateLimiter → ℕ × TokenBucketRateLimiter
run k [] r = (0, r)
run k (c ∷ cs) r =
    let (answer, r') = assert_allowed c.key c.tokens c.now r in
    let (rest, r'') = run k cs r' in
    ((if str_eq c.key k then taken (c.tokens * r.token_parts) answer else 0) + rest, r'')

-- The clock does not go back: every call's reading is at least `t` and the readings before it.
abbrev pub Ordered : ℕ → List Call → Type 0
Ordered t [] = Unit {0}
Ordered t (c ∷ cs) = (t ≤ c.now) × Ordered c.now cs

-- The reading of the last call.
abbrev pub last_now : ℕ → List Call → ℕ
last_now t [] = t
last_now t (c ∷ cs) = last_now c.now cs

-- What the bucket of a key holds, at a time that no call of the run is later than.
abbrev holds : ℕ → ℕ → ℕ → Option Bucket → ℕ
holds capacity refill t none = capacity
holds capacity refill t (some b) = min capacity (b.tokens + (t - b.updated_at) * refill)

abbrev level : String → ℕ → TokenBucketRateLimiter → ℕ
level k t r = holds r.capacity r.refill t (Dict.get r.buckets k)

elapsed_mul : (a t u f : ℕ) → t ≤ u → (u - a) * f ≤ (t - a) * f + (u - t) * f
elapsed_mul a t u f h = omega (
  arith,
  mul-le-mul_right {m = u - a} {n = (t - a) + (u - t)} f (omega arith),
  add-mul (t - a) (u - t) f,
)

no_time : (t f : ℕ) → (t - t) * f ≡ 0
no_time t f = let e : t - t ≡ 0 = omega arith in rw e (omega arith)

level_mono :
    (k : String) (t u : ℕ) (r : TokenBucketRateLimiter)
    → t ≤ u
    → level k u r ≤ level k t r + (u - t) * r.refill
level_mono k t u r h = elim (Option-cases (Dict.get r.buckets k)) [
  | inl e ↦ rw e (omega arith)
  | inr (b, e) ↦ rw e (omega (arith, elapsed_mul b.updated_at t u r.refill h))
]

assert_allowed_settings :
    (k : String) (n now : ℕ) (r : TokenBucketRateLimiter)
    → ((assert_allowed k n now r).1.capacity ≡ r.capacity)
      × ((assert_allowed k n now r).1.refill ≡ r.refill)
      × ((assert_allowed k n now r).1.token_parts ≡ r.token_parts)
unfolding assert_allowed
assert_allowed_settings k n now r = ground arith

abbrev pub fresh : TokenBucketRateLimiter → ℕ → Bucket
fresh r now = record { tokens = r.capacity; updated_at = now }

-- A call is granted or refused; it raises nothing else.
pub assert_allowed-cases :
    (k : String) (n now : ℕ) (r : TokenBucketRateLimiter)
    → ((assert_allowed k n now r).0 ≡ ok tt)
      ⊎ ((assert_allowed k n now r).0 ≡ err rate_limit_exceeded)
unfolding assert_allowed
assert_allowed-cases k n now r = ground arith

-- What a call leaves in the bucket of its key.
abbrev left : TokenBucketRateLimiter → ℕ → ℕ → Bucket → Bucket
left r n now b =
    if ltb b.tokens (n * r.token_parts)
    then b
    else record b { tokens = b.tokens - n * r.token_parts }

module _ (j : String) (n now : ℕ) (r : TokenBucketRateLimiter) where
  abbrev bucket' : Bucket
  bucket' = refilled r.capacity r.refill now (Dict.get_or r.buckets j (fresh r now))

  -- A call is answered from the refilled bucket of its key,
  assert_allowed-answer :
      (assert_allowed j n now r).0
      ≡ (if ltb bucket'.tokens (n * r.token_parts) then err rate_limit_exceeded else ok tt)
  unfolding assert_allowed
  assert_allowed-answer = rw (setdefault-get_or r.buckets j (fresh r now)) (ground arith)

  -- and changes the bucket of its key alone.
  assert_allowed-bucket :
      (k : String)
      → Dict.get (assert_allowed j n now r).1.buckets k
        ≡ (if str_eq j k then some (left r n now bucket') else Dict.get r.buckets k)
  unfolding assert_allowed
  assert_allowed-bucket k = ground (
    arith,
    setdefault-get_or r.buckets j (fresh r now),
    get-put-setdefault r.buckets j (fresh r now) (left r n now bucket') k,
  )

-- What an accepted call takes is what the bucket then lacks.
level-assert_allowed :
    (k j : String) (n now : ℕ) (r : TokenBucketRateLimiter)
    → (if str_eq j k then taken (n * r.token_parts) (assert_allowed j n now r).0 else 0)
        + level k now (assert_allowed j n now r).1
      ≤ level k now r
unfolding refilled
level-assert_allowed k j n now r = elim (Option-cases (Dict.get r.buckets j)) [
  | inl e ↦ ground (
    arith,
    eq_iff j k,
    no_time now r.refill,
    assert_allowed-answer j n now r,
    assert_allowed-bucket j n now r k,
    assert_allowed_settings j n now r,
    get-eq-none→get_or r.buckets j (fresh r now) e,
  )
  | inr (b, e) ↦ ground (
    arith,
    eq_iff j k,
    no_time now r.refill,
    assert_allowed-answer j n now r,
    assert_allowed-bucket j n now r k,
    assert_allowed_settings j n now r,
    get-eq-some→get_or r.buckets j b (fresh r now) e,
  )
]

elapsed_split : (t u v f : ℕ) → t ≤ u → u ≤ v → (u - t) * f + (v - u) * f ≡ (v - t) * f
elapsed_split t u v f h k = rw (← add-mul (u - t) (v - u) f) (ap (λ (n : ℕ). n * f) (omega arith))

le-last_now : (t : ℕ) (cs : List Call) → Ordered t cs → t ≤ last_now t cs
le-last_now t [] h = omega arith
le-last_now t (c ∷ cs) h = omega (arith, le-last_now c.now cs h.1)

run-level :
    (k : String) (t : ℕ) (cs : List Call) (r : TokenBucketRateLimiter)
    → Ordered t cs
    → (run k cs r).0 + level k (last_now t cs) (run k cs r).1
      ≤ level k t r + (last_now t cs - t) * r.refill
unfolding run
run-level k t [] r h = omega arith
run-level k t (c ∷ cs) r h =
    let r' = (assert_allowed c.key c.tokens c.now r).1 in
    let same : r'.refill ≡ r.refill = (assert_allowed_settings c.key c.tokens c.now r).1 in
    omega (
      arith,
      run-level k c.now cs r' h.1,
      ap (λ (f : ℕ). (last_now c.now cs - c.now) * f) same,
      level-assert_allowed k c.key c.tokens c.now r,
      level_mono k t c.now r h.0,
      elapsed_split t c.now (last_now c.now cs) r.refill h.0 (le-last_now c.now cs h.1),
    )

level-le-capacity : (k : String) (t : ℕ) (r : TokenBucketRateLimiter) → level k t r ≤ r.capacity
level-le-capacity k t r = elim (Option-cases (Dict.get r.buckets k)) [
  | inl e ↦ rw e (omega arith)
  | inr (b, e) ↦ rw e (omega arith)
]

-- The rate limit: while the clock does not go back, the parts that one key is granted between two
-- times are at most the capacity of a bucket and what is refilled in between, however the calls for
-- the keys interleave and whatever the buckets held before.
pub run-granted-le :
    (k : String) (t : ℕ) (cs : List Call) (r : TokenBucketRateLimiter)
    → Ordered t cs
    → (run k cs r).0 ≤ r.capacity + (last_now t cs - t) * r.refill
run-granted-le k t cs r h = omega (arith, run-level k t cs r h, level-le-capacity k t r)

-- The other direction: a call is refused only if the refilled bucket of its key lacks the tokens, so
-- a key that was never seen is refused only a call for more than the capacity.
pub assert_allowed_first :
    (k : String) (n now : ℕ) (r : TokenBucketRateLimiter)
    → Dict.get r.buckets k ≡ none
    → (assert_allowed k n now r).0
      ≡ (if ltb r.capacity (n * r.token_parts) then err rate_limit_exceeded else ok tt)
unfolding refilled
assert_allowed_first k n now r e = ground (
  arith,
  no_time now r.refill,
  assert_allowed-answer k n now r,
  get-eq-none→get_or r.buckets k (fresh r now) e,
)

-- A call for one key, granted or refused, leaves the buckets of all others as they are.
pub assert_allowed_other :
    (k j : String) (n now : ℕ) (r : TokenBucketRateLimiter)
    → str_eq j k ≡ false
    → Dict.get (assert_allowed j n now r).1.buckets k ≡ Dict.get r.buckets k
assert_allowed_other k j n now r h = ground (arith, assert_allowed-bucket j n now r k)
