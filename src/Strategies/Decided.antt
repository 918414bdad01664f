-- ===== src/Strategies/Decided.antt =====
-- What the strategies of router/strategies.py decide for a catalog that maps each name to the candidate
-- of that name: models of the catalog, and no exception.
use nexus_llm_router.Prelude.{
  ℕ, zero, suc, ◌≡◌, refl, String, true, false, some, Result, ok, err, List, [], ◌∷◌, ◌++◌,
  Bool-cases, inl, inr,
}
use nexus_llm_router.Prelude.Choice.{
  Before, All, All-imp, take, sort_by, insert_by, All-keep, All-sort_by, All-insert_by,
  first_by-All, All-take,
}
use nexus_llm_router.Prelude.Dict
use nexus_llm_router.Schemas.{TaskSignals, ModelCandidate, RoutingDecision, StrategyName}
use nexus_llm_router.Engine.Order.Known.{Known}
use nexus_llm_router.Strategies.Base.{
  Catalog, values, names, without, fallback_chain, decision, or_else, eligible, min_by,
  head_decision, by_quality,
}

-- The catalog has the candidate under its own name.
abbrev pub Holds : Catalog → ModelCandidate → Type 0
Holds catalog c = Dict.get catalog c.model ≡ some c

abbrev pub IsKeyed : Catalog → Type 0
IsKeyed catalog = All (Holds catalog) (values catalog)

-- The strategy returns a decision, and the decision names models of the catalog only.
abbrev pub Decides : Catalog → Result RoutingDecision → Type 0
Decides catalog answer =
    (d : RoutingDecision) × (answer ≡ ok d) × Known catalog (d.chosen_model ∷ d.fallback_chain)

-- A list that is not empty.
abbrev pub Filled : (ModelCandidate → Type 0) → List ModelCandidate → Type 0
Filled P xs = (c : ModelCandidate) × (cs : List ModelCandidate) × (xs ≡ c ∷ cs) × All P (c ∷ cs)

-- A candidate, and no exception.
abbrev pub Gives : (ModelCandidate → Type 0) → Result ModelCandidate → Type 0
Gives P (ok c) = P c
Gives P (err e) = false ≡ true

module _ (catalog : Catalog) where
  pub Known-names : (xs : List ModelCandidate) → All (Holds catalog) xs → Known catalog (names xs)
  Known-names [] h = tt
  Known-names (x ∷ xs) h = ((x, h.0), Known-names xs h.1)

  pub Known-take : (n : ℕ) (ms : List String) → Known catalog ms → Known catalog (take n ms)
  unfolding take
  Known-take zero ms h = tt
  Known-take (suc n) [] h = tt
  Known-take (suc n) (m ∷ ms) h = (h.0, Known-take n ms h.1)

  pub fallback_chain-Known :
      (chosen : String) → IsKeyed catalog → Known catalog (fallback_chain catalog chosen)
  unfolding fallback_chain without
  fallback_chain-Known chosen keyed =
      Known-take 3 _ (
        Known-names _
          (All-keep _ _ (sort_by by_quality (values catalog)) (All-sort_by _ _ _ keyed)))

  decision-found :
      (chain_of : String → List String) (s : StrategyName) (m rationale : String)
      (c : ModelCandidate)
      → Dict.get catalog m ≡ some c
      → decision catalog chain_of s m rationale
        ≡ ok (record {
          chosen_model = m;
          provider = c.provider;
          routing_strategy = s;
          rationale = rationale;
          fallback_chain = chain_of m;
        })
  unfolding decision
  decision-found chain_of s m rationale c found = rw (found, decision) refl

  pub decision-Decides :
      (chain_of : String → List String) (s : StrategyName) (m rationale : String)
      → (c : ModelCandidate) × (Dict.get catalog m ≡ some c)
      → Known catalog (chain_of m)
      → Decides catalog (decision catalog chain_of s m rationale)
  decision-Decides chain_of s m rationale (c, found) known =
      (_, decision-found chain_of s m rationale c found, ((c, found), known))

  pub head_decision-Decides :
      (s : StrategyName) (explain : ModelCandidate → String) (xs : List ModelCandidate)
      → Filled (Holds catalog) xs
      → Decides catalog (head_decision s explain xs)
  unfolding head_decision
  head_decision-Decides s explain xs (c, cs, e, h) =
      rw e (_, refl, ((c, h.0), Known-names _ (All-take _ 3 cs h.1)))

-- Lists that are not empty.
module _ (P : ModelCandidate → Type 0) where
  insert_by-Filled :
      (before : Before ModelCandidate) (x : ModelCandidate) (ys : List ModelCandidate)
      → P x
      → All P ys
      → Filled P (insert_by before x ys)
  unfolding insert_by
  insert_by-Filled before x [] p h = (x, [], refl, (p, tt))
  insert_by-Filled before x (y ∷ ys) p h = elim (Bool-cases (before y x)) [
    | inl lower ↦ rw lower (y, _, refl, (h.0, All-insert_by P before x ys p h.1))
    | inr stays ↦ rw stays (x, _, refl, (p, h))
  ]

  pub All-Filled : (xs : List ModelCandidate) → Filled P xs → All P xs
  All-Filled xs (c, cs, e, h) = rw e h

  pub Filled-imp :
      (Q : ModelCandidate → Type 0) (xs : List ModelCandidate)
      → ((c : ModelCandidate) → P c → Q c)
      → Filled P xs
      → Filled Q xs
  Filled-imp Q xs f (c, cs, e, h) = (c, cs, e, All-imp P Q (c ∷ cs) f h)

  pub Filled-with :
      (Q : ModelCandidate → Type 0) (xs : List ModelCandidate)
      → Filled P xs
      → All Q xs
      → Filled Q xs
  Filled-with Q [] (c, cs, e, h) k = cc
  Filled-with Q (x ∷ xs) filled k = (x, xs, refl, k)

  pub sort_by-Filled :
      (before : Before ModelCandidate) (xs : List ModelCandidate)
      → Filled P xs
      → Filled P (sort_by before xs)
  unfolding sort_by
  sort_by-Filled before xs (c, cs, e, h) =
      rw e (insert_by-Filled before c _ h.0 (All-sort_by P before cs h.1))

  pub or_else-Filled :
      (xs ys : List ModelCandidate) → All P xs → Filled P ys → Filled P (or_else xs ys)
  or_else-Filled [] ys h f = f
  or_else-Filled (x ∷ xs) ys h f = (x, xs, refl, h)

  pub min_by-Gives :
      (before : Before ModelCandidate) (xs : List ModelCandidate)
      → Filled P xs
      → Gives P (min_by before xs)
  unfolding min_by
  min_by-Gives before xs (c, cs, e, h) = rw e (first_by-All P before c cs h.0 h.1)

  pub eligible-Filled :
      (catalog : Catalog) (signals : TaskSignals)
      → Filled P (values catalog)
      → Filled P (eligible catalog signals)
  unfolding eligible
  eligible-Filled catalog signals (c, cs, e, h) =
      or_else-Filled _ _ (All-keep P _ _ (rw e h)) (c, cs, e, h)

  All-append : (xs ys : List ModelCandidate) → All P xs → All P ys → All P (xs ++ ys)
  All-append [] ys h k = k
  All-append (x ∷ xs) ys h k = (h.0, All-append xs ys h.1 k)

  pub Filled-append : (xs ys : List ModelCandidate) → Filled P xs → All P ys → Filled P (xs ++ ys)
  Filled-append xs ys (c, cs, e, h) k = rw e (c, cs ++ ys, refl, (h.0, All-append cs ys h.1 k))
