-- ===== src/Safety/FallbackChain/Repeats.antt =====
-- What a plan of safety/fallback_chain.py holds when the preferences name a provider more than once.
use nexus_llm_router.Prelude.{
  ℕ, ◌≤◌, ◌≡◌, ◌⊎◌, inl, inr, sym, arith, String, true, false, Bool-cases, not, ◌&&◌, Option, none,
  Result, ok, err, List, [], ◌∷◌, if◌then◌else◌, occurs, occurs-append,
}
use nexus_llm_router.Prelude.Choice.{keep}
use nexus_llm_router.Safety.FallbackChain.{
  FallbackChainPlan, ordered, ProviderFallbackChainPlanner, any_empty, contains, by_preference,
  planned, anchored, plan_unique, plan, plan_known, effective_order, is_none_available,
}
use nexus_llm_router.Safety.FallbackChain.Planned.{
  contains-occurs, occurs-keep, expected, Kept, unique-Kept,
}

-- How often a plan has a name: an available candidate is there once for each time that the preferences
-- name it, and once if they do not.
abbrev pub repeated : (candidates unavailable prefs : List String) → String → ℕ
repeated candidates unavailable prefs p =
    if contains p candidates && not (contains p unavailable)
    then if contains p prefs then occurs p prefs else 1
    else 0

by_preference-repeated :
    (prefs available : List String) (p : String)
    → occurs p available ≤ 1
    → occurs p (by_preference prefs available)
      ≡ (if contains p available then if contains p prefs then occurs p prefs else 1 else 0)
unfolding by_preference
by_preference-repeated prefs available p k = ground (
  arith,
  occurs-append p (keep (λ name. contains name available) prefs)
      (keep (λ name. not (contains name prefs)) available),
  occurs-keep p (λ name. contains name available) prefs,
  occurs-keep p (λ name. not (contains name prefs)) available,
  contains-occurs p available,
  contains-occurs p prefs,
)

module _ (candidates unavailable prefs : List String) where
  -- A plan with every count, or the reason that there is none.
  abbrev pub PlansRepeated : Result FallbackChainPlan → Type 0
  PlansRepeated (ok pl) =
      (p : String) → occurs p (ordered pl) ≡ repeated candidates unavailable prefs p
  PlansRepeated (err e) =
      (any_empty candidates ≡ true)
      ⊎ ((any_empty prefs ≡ true) ⊎ ((p : String) → expected candidates unavailable p ≡ 0))

  planned-PlansRepeated :
      (skipped available xs : List String)
      → is_none_available available ≡ false
      → ((p : String) → occurs p available ≡ expected candidates unavailable p)
      → ((p : String) → occurs p xs ≡ repeated candidates unavailable prefs p)
      → PlansRepeated (planned skipped xs)
  unfolding planned ordered occurs
  planned-PlansRepeated skipped available [] some_available a h =
      inr (inr (λ p. ground (arith, h p, contains-occurs p prefs)))
  planned-PlansRepeated skipped available (x ∷ xs) some_available a h = h

  none_available :
      (available : List String)
      → is_none_available available ≡ true
      → ((p : String) → occurs p available ≡ expected candidates unavailable p)
      → (p : String) → expected candidates unavailable p ≡ 0
  unfolding occurs
  none_available [] e a p = sym (a p)
  none_available (x ∷ xs) e a p = cc

  plan_known-PlansRepeated :
      (known : Result (List String))
      → Kept [] candidates known
      → PlansRepeated (plan_known unavailable none prefs known)
  unfolding contains plan_unique anchored
  plan_known-PlansRepeated (err e) k = inl k
  plan_known-PlansRepeated (ok u) k =
      let is_available = λ (name : String). not (contains name unavailable) in
      let available = keep is_available u in
      let counts : (p : String) → occurs p available ≡ expected candidates unavailable p =
        λ p. ground (arith, k p, occurs-keep p is_available u) in
      elim (Bool-cases (is_none_available available)) [
        | inl lacking ↦ rw lacking (inr (inr (none_available available lacking counts)))
        | inr fine ↦ elim (Bool-cases (any_empty prefs)) [
          | inl empty ↦ rw (fine, empty) (inr (inl empty))
          | inr full ↦
              rw (fine, full)
                (planned-PlansRepeated _ available (by_preference prefs available) fine counts (λ p.
                  ground (
                    arith,
                    counts p,
                    contains-occurs p available,
                    by_preference-repeated prefs available p (ground (arith, counts p)),
                  )))
        ]
      ]

-- Without a forced primary, and whatever the preferences are, a plan holds an available candidate as
-- often as the preferences name it, and once if they do not name it, and no other name. So an
-- available provider that they name twice is twice in the plan, as its own fallback. Where there is no plan, a candidate or
-- a preference is empty, or no candidate is available.
pub plan-occurs :
    (planner : ProviderFallbackChainPlanner) (candidates unavailable : List String)
    (preference_order : Option (List String))
    → PlansRepeated candidates unavailable
        (effective_order planner preference_order)
        (plan planner candidates unavailable none preference_order)
unfolding plan contains
plan-occurs planner [] unavailable preference_order = inr (inr (λ p. ground arith))
plan-occurs planner (c ∷ cs) unavailable preference_order =
    plan_known-PlansRepeated (c ∷ cs) unavailable (effective_order planner preference_order) _
      (unique-Kept [] (c ∷ cs))
