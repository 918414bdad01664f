-- ===== src/Safety/FallbackChain/Promise.antt =====
-- What `ProviderFallbackChainPlanner.plan` of safety/fallback_chain.py promises.
use nexus_llm_router.Prelude.{
  ◌+◌, ◌≤◌, ◌≡◌, ◌⊎◌, inl, inr, refl, sym, ◌∙◌, arith, eq_iff, String, Bool, true, Bool-cases, not,
  Option, none, some, Result, ok, err, List, [], ◌∷◌, if◌then◌else◌, str_eq, occurs,
}
use nexus_llm_router.Prelude.Choice.{keep}
use nexus_llm_router.Safety.FallbackChain.{
  FallbackChainPlan, ordered, ProviderFallbackChainPlanner, any_empty, contains, by_preference,
  planned, anchored, plan_unique, plan, plan_known, effective_order, empty_primary,
  is_none_available,
}
use nexus_llm_router.Safety.FallbackChain.Planned.{
  contains-occurs, occurs-keep, expected, Kept, unique-Kept, by_preference-occurs,
}

module _ (candidates unavailable : List String) where
  -- The forced primary comes first.
  abbrev StartsWith : Option String → FallbackChainPlan → Type 0
  StartsWith none pl = Unit {0}
  StartsWith (some primary) pl = pl.primary ≡ primary

  -- No candidate is available, or the forced primary is not.
  abbrev Lacks : Option String → Type 0
  Lacks none = (p : String) → expected candidates unavailable p ≡ 0
  Lacks (some primary) = expected candidates unavailable primary ≡ 0

  -- A plan, or the reason that there is none.
  abbrev pub Plans : Option String → List String → Result FallbackChainPlan → Type 0
  Plans primary prefs (ok pl) =
      StartsWith primary pl
      × ((p : String) → occurs p (ordered pl) ≡ expected candidates unavailable p)
  Plans primary prefs (err e) =
      (any_empty candidates ≡ true)
      ⊎ ((any_empty prefs ≡ true) ⊎ ((empty_primary primary ≡ true) ⊎ Lacks primary))

  planned-Plans :
      (prefs skipped xs : List String)
      → ((p : String) → occurs p xs ≡ expected candidates unavailable p)
      → Plans none prefs (planned skipped xs)
  unfolding planned ordered occurs
  planned-Plans prefs skipped [] h = inr (inr (inr (λ p. sym (h p))))
  planned-Plans prefs skipped (x ∷ xs) h = (tt, h)

  anchored-Plans :
      (primary : Option String) (prefs available xs skipped : List String)
      → ((p : String) → occurs p available ≡ expected candidates unavailable p)
      → ((p : String) → occurs p xs ≡ expected candidates unavailable p)
      → Plans primary prefs (anchored primary available xs skipped)
  unfolding anchored planned ordered occurs
  anchored-Plans none prefs available xs skipped a h = planned-Plans prefs skipped xs h
  anchored-Plans (some q) prefs available xs skipped a h =
      elim (Bool-cases (contains q available)) [
        | inl there ↦ rw there (refl, λ p. count p there)
        | inr missing ↦
            rw missing (inr (inr (inr (ground (arith, missing, contains-occurs q available, a q)))))
      ]
    where
      others : String → Bool
      others name = not (str_eq name q)

      count :
          (p : String)
          → contains q available ≡ true
          → (if str_eq q p then 1 else 0) + occurs p (keep others xs)
            ≡ expected candidates unavailable p
      count p there = elim (Bool-cases (str_eq q p)) [
        | inl same ↦
            let e : q ≡ p = ground (arith, same, eq_iff q p) in
            rw (← e) (
              ground (
                arith,
                there,
                a q,
                contains-occurs q available,
                occurs-keep q others xs,
                eq_iff q q,
              ))
        | inr other ↦ ground (arith, other, h p, occurs-keep p others xs, eq_iff q p, eq_iff p q)
      ]

  none_available-Lacks :
      (primary : Option String) (available : List String)
      → is_none_available available ≡ true
      → ((p : String) → occurs p available ≡ expected candidates unavailable p)
      → Lacks primary
  unfolding occurs
  none_available-Lacks none [] e a = λ p. sym (a p)
  none_available-Lacks (some q) [] e a = sym (a q)
  none_available-Lacks primary (x ∷ xs) e a = cc

  plan_unique-Plans :
      (primary : Option String) (prefs u : List String)
      → ((p : String) → occurs p prefs ≤ 1)
      → ((p : String) → occurs p u ≡ (if contains p candidates then 1 else 0))
      → Plans primary prefs (plan_unique unavailable primary prefs u)
  unfolding plan_unique
  plan_unique-Plans primary prefs u distinct h =
      let is_available = λ (name : String). not (contains name unavailable) in
      let available = keep is_available u in
      let counts : (p : String) → occurs p available ≡ expected candidates unavailable p =
        λ p. ground (arith, h p, occurs-keep p is_available u) in
      elim (Bool-cases (is_none_available available)) [
        | inl lacking ↦
            rw lacking (inr (inr (inr (none_available-Lacks primary available lacking counts))))
        | inr fine ↦ elim (Bool-cases (any_empty prefs)) [
          | inl empty ↦ rw (fine, empty) (inr (inl empty))
          | inr full ↦
              rw (fine, full)
                (anchored-Plans primary prefs available (by_preference prefs available) _ counts
                  (λ p.
                    by_preference-occurs prefs available p (distinct p) (ground (arith, counts p))
                    ∙ counts p))
        ]
      ]

  plan_known-Plans :
      (primary : Option String) (prefs : List String) (known : Result (List String))
      → ((p : String) → occurs p prefs ≤ 1)
      → Kept [] candidates known
      → Plans primary prefs (plan_known unavailable primary prefs known)
  unfolding contains
  plan_known-Plans primary prefs (err e) distinct k = inl k
  plan_known-Plans primary prefs (ok u) distinct k = plan_unique-Plans primary prefs u distinct k

-- A plan holds every available candidate once and no other name, with the forced primary first. Where
-- there is no plan, a candidate or a preference or the primary is empty, or no candidate is available,
-- or the forced primary is none of the available ones. The preferences name no provider twice.
pub plan-Plans :
    (planner : ProviderFallbackChainPlanner) (candidates unavailable : List String)
    (primary : Option String) (preference_order : Option (List String))
    → ((p : String) → occurs p (effective_order planner preference_order) ≤ 1)
    → Plans candidates unavailable primary
        (effective_order planner preference_order)
        (plan planner candidates unavailable primary preference_order)
unfolding plan contains
plan-Plans planner [] unavailable none preference_order distinct =
    inr (inr (inr (λ p. ground arith)))
plan-Plans planner [] unavailable (some q) preference_order distinct =
    inr (inr (inr (ground arith)))
plan-Plans planner (c ∷ cs) unavailable primary preference_order distinct =
    elim (Bool-cases (empty_primary primary)) [
      | inl empty ↦ rw empty (inr (inr (inl empty)))
      | inr fine ↦ rw fine (
          plan_known-Plans (c ∷ cs) unavailable primary (effective_order planner preference_order) _
            distinct (unique-Kept [] (c ∷ cs)))
    ]
