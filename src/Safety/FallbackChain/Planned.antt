-- ===== src/Safety/FallbackChain/Planned.antt =====
-- What a plan of safety/fallback_chain.py holds.
use nexus_llm_router.Prelude.{
  ℕ, ◌≤◌, ◌≡◌, inl, inr, refl, arith, eq_iff, String, Bool, true, false, Bool-cases, not, ◌&&◌, ltb,
  Result, ok, err, List, [], ◌∷◌, if◌then◌else◌, str_eq, occurs, occurs-append,
}
use nexus_llm_router.Prelude.Choice.{keep}
use nexus_llm_router.Safety.FallbackChain.{any_empty, contains, unique, by_preference}

pub contains-occurs : (p : String) (xs : List String) → contains p xs ≡ ltb 0 (occurs p xs)
unfolding occurs contains
contains-occurs p [] = refl
contains-occurs p (x ∷ xs) = ground (arith, contains-occurs p xs)

-- A test that keeps a name keeps all its occurrences.
pub occurs-keep :
    (p : String) (test : String → Bool) (xs : List String)
    → occurs p (keep test xs) ≡ (if test p then occurs p xs else 0)
unfolding occurs keep
occurs-keep p test [] = ground arith
occurs-keep p test (x ∷ xs) = elim (Bool-cases (str_eq x p)) [
  | inl same ↦
      let e : x ≡ p = ground (arith, same, eq_iff x p) in
      rw e (ground (arith, occurs-keep p test xs, eq_iff p p))
  | inr other ↦ ground (arith, other, occurs-keep p test xs)
]

-- How often a name is to be in a plan: once, if it is a candidate and available.
abbrev pub expected : (candidates unavailable : List String) → String → ℕ
expected candidates unavailable p =
    if contains p candidates && not (contains p unavailable) then 1 else 0

abbrev pub Kept : (seen names : List String) → Result (List String) → Type 0
Kept seen names (ok u) =
    (p : String) → occurs p u ≡ (if contains p seen then 0 else if contains p names then 1 else 0)
Kept seen names (err e) = any_empty names ≡ true

known-Kept :
    (seen : List String) (name : String) (names : List String) (a : Result (List String))
    → contains name seen ≡ true
    → Kept seen names a
    → Kept seen (name ∷ names) a
unfolding any_empty contains
known-Kept seen name names (err e) k h = ground (arith, h)
known-Kept seen name names (ok u) k h = λ p. elim (Bool-cases (str_eq name p)) [
  | inl same ↦
      let e : name ≡ p = ground (arith, same, eq_iff name p) in
      let there : contains p seen ≡ true = rw (← e) k in ground (arith, h p, there)
  | inr other ↦ ground (arith, h p, other)
]

new-Kept :
    (seen : List String) (name : String) (names : List String) (b : Result (List String))
    → contains name seen ≡ false
    → Kept (name ∷ seen) names b
    → Kept seen (name ∷ names) (elim b [ ok rest ↦ ok (name ∷ rest) | err e ↦ err e ])
unfolding any_empty contains occurs
new-Kept seen name names (err e) k h = ground (arith, h)
new-Kept seen name names (ok u) k h = λ p. elim (Bool-cases (str_eq name p)) [
  | inl same ↦
      let e : name ≡ p = ground (arith, same, eq_iff name p) in
      let absent : contains p seen ≡ false = rw (← e) k in ground (arith, h p, same, absent)
  | inr other ↦ ground (arith, h p, other)
]

pub unique-Kept : (seen names : List String) → Kept seen names (unique seen names)
unfolding unique any_empty contains occurs
unique-Kept seen [] = λ p. ground arith
unique-Kept seen (name ∷ names) = elim (Bool-cases (str_eq name "")) [
  | inl empty ↦ rw empty (ground (arith, empty))
  | inr full ↦ elim (Bool-cases (contains name seen)) [
    | inl known ↦ rw (full, known) (known-Kept seen name names _ known (unique-Kept seen names))
    | inr new ↦ rw (full, new) (new-Kept seen name names _ new (unique-Kept (name ∷ seen) names))
  ]
]

pub by_preference-occurs :
    (prefs available : List String) (p : String)
    → occurs p prefs ≤ 1
    → occurs p available ≤ 1
    → occurs p (by_preference prefs available) ≡ occurs p available
unfolding by_preference
by_preference-occurs prefs available p h k = ground (
  arith,
  occurs-append p (keep (λ name. contains name available) prefs)
      (keep (λ name. not (contains name prefs)) available),
  occurs-keep p (λ name. contains name available) prefs,
  occurs-keep p (λ name. not (contains name prefs)) available,
  contains-occurs p prefs,
  contains-occurs p available,
)
