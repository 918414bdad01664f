-- ===== src/Safety/FallbackChain.antt =====
-- safety/fallback_chain.py: `ProviderFallbackChainPlanner`. A set of names is a list, and the rationale, a
-- text for people, is left out.
pub mod Planned
pub mod Promise
pub mod Repeats
use nexus_llm_router.Prelude.{
  String, Bool, true, false, not, Option, none, some, Result, ok, err, value_error, List, [], ◌∷◌,
  ◌++◌, if◌then◌else◌, str_eq,
}
use nexus_llm_router.Prelude.Choice.{keep}

pub record FallbackChainPlan : Type 0 where
  pub primary : String
  pub chain : List String
  pub skipped_unavailable : List String

-- `ordered`
unfoldable pub ordered : FallbackChainPlan → List String
ordered plan = plan.primary ∷ plan.chain

pub record ProviderFallbackChainPlanner : Type 0 where
  pub preference_order : List String

-- `any(not item for item in order)`
unfoldable pub any_empty : List String → Bool
any_empty [] = false
any_empty (x ∷ xs) = let rest = any_empty xs in if str_eq x "" then true else rest

-- `name in names`
unfoldable pub contains : String → List String → Bool
contains name [] = false
contains name (x ∷ xs) = let rest = contains name xs in if str_eq x name then true else rest

unfoldable pub init : List String → Result ProviderFallbackChainPlanner
unfolding any_empty
init preference_order =
    if any_empty preference_order
    then err value_error
    else ok (record { preference_order = preference_order })

-- the loop that keeps the first of each candidate
unfoldable pub unique : List String → List String → Result (List String)
unfolding contains
unique seen [] = ok []
unique seen (name ∷ names) =
    let known = unique seen names in
    let more = unique (name ∷ seen) names in
    if str_eq name ""
    then err value_error
    else if contains name seen
    then known
    else elim more [ ok rest ↦ ok (name ∷ rest) | err e ↦ err e ]

-- preferred names in their order, then the available ones that have no rank
unfoldable pub by_preference : List String → List String → List String
unfolding contains keep
by_preference prefs available =
    keep (λ name. contains name available) prefs
    ++ keep (λ name. not (contains name prefs)) available

-- `head, *tail = ordered`
unfoldable pub planned : List String → List String → Result FallbackChainPlan
planned skipped [] = err value_error
planned skipped (head ∷ tail) =
    ok (record { primary = head; chain = tail; skipped_unavailable = skipped })

-- the forced primary goes first
unfoldable pub anchored :
    Option String → (available ordered skipped : List String) → Result FallbackChainPlan
unfolding contains keep planned
anchored none available ordered skipped = planned skipped ordered
anchored (some primary) available ordered skipped =
    if contains primary available
    then planned skipped (primary ∷ keep (λ name. not (str_eq name primary)) ordered)
    else err value_error

abbrev pub is_none_available : List String → Bool
is_none_available [] = true
is_none_available (x ∷ xs) = false

-- what `plan` does with the unique candidates
unfoldable pub plan_unique :
    (unavailable : List String) (primary : Option String) (prefs : List String)
    → List String
    → Result FallbackChainPlan
unfolding contains keep any_empty by_preference anchored
plan_unique unavailable primary prefs candidates =
    let available = keep (λ name. not (contains name unavailable)) candidates in
    if is_none_available available
    then err value_error
    else if any_empty prefs
    then err value_error
    else anchored primary available (by_preference prefs available)
        (keep (λ name. contains name unavailable) candidates)

abbrev pub empty_primary : Option String → Bool
empty_primary none = false
empty_primary (some primary) = str_eq primary ""

abbrev pub effective_order : ProviderFallbackChainPlanner → Option (List String) → List String
effective_order planner none = planner.preference_order
effective_order planner (some order) = order

-- what `plan` does with the result of the loop
abbrev pub plan_known :
    (unavailable : List String) (primary : Option String) (prefs : List String)
    → Result (List String)
    → Result FallbackChainPlan
plan_known unavailable primary prefs (err e) = err e
plan_known unavailable primary prefs (ok candidates) =
    plan_unique unavailable primary prefs candidates

unfoldable pub plan :
    ProviderFallbackChainPlanner
    → (candidates unavailable : List String) (primary : Option String)
      (preference_order : Option (List String))
    → Result FallbackChainPlan
unfolding unique plan_unique
plan planner [] unavailable primary preference_order = err value_error
plan planner (c ∷ cs) unavailable primary preference_order =
    if empty_primary primary
    then err value_error
    else plan_known unavailable primary (effective_order planner preference_order)
        (unique [] (c ∷ cs))
