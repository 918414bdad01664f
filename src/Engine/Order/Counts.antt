-- ===== src/Engine/Order/Counts.antt =====
-- The attempts are the chosen model and the fallback chain, regrouped.
use nexus_llm_router.Prelude.{
  ℕ, ◌+◌, ◌≡◌, refl, String, none, some, Result, ok, err, List, [], ◌∷◌, ◌++◌, str_eq,
  if◌then◌else◌, arith, eq_iff, Option-cases, inl, inr, occurs, occurs-append,
}
use nexus_llm_router.Prelude.Dict
use nexus_llm_router.Prelude.Dict.{Dict, get-put, get_or-put, get-eq-none→get_or}
use nexus_llm_router.Schemas.{ModelCandidate}
use nexus_llm_router.Scoreboard.{ProviderFallbackScoreboard, place, rank_all, rank}
use nexus_llm_router.Engine.Order.{
  Groups, group_model, group_chain, gather, no_groups, arrange, order_attempts,
}

module _ (x : String) where
  gather-place :
      (groups : Dict (List String)) (b : ProviderFallbackScoreboard) (p : String) (qs : List String)
      → occurs x (gather groups (place b p qs)) ≡ occurs x (gather groups (p ∷ qs))
  unfolding place gather
  gather-place groups b p [] = refl
  gather-place groups b p (q ∷ qs) = ground (
    arith,
    gather-place groups b p qs,
    occurs-append x (Dict.get_or groups p []) (gather groups qs),
    occurs-append x (Dict.get_or groups q []) (gather groups qs),
    occurs-append x (Dict.get_or groups q []) (gather groups (place b p qs)),
    occurs-append x (Dict.get_or groups p []) (Dict.get_or groups q [] ++ gather groups qs),
    occurs-append x (Dict.get_or groups q []) (Dict.get_or groups p [] ++ gather groups qs),
  )

  gather-rank_all :
      (groups : Dict (List String)) (b : ProviderFallbackScoreboard) (ps : List String)
      → occurs x (gather groups (rank_all b ps)) ≡ occurs x (gather groups ps)
  unfolding rank_all gather
  gather-rank_all groups b [] = refl
  gather-rank_all groups b (p ∷ ps) = omega (
    arith,
    gather-place groups b p (rank_all b ps),
    gather-rank_all groups b ps,
    occurs-append x (Dict.get_or groups p []) (gather groups ps),
    occurs-append x (Dict.get_or groups p []) (gather groups (rank_all b ps)),
  )

  -- One more model in a group is gathered as often as its provider is listed.
  gather-put :
      (groups : Dict (List String)) (p m : String) (qs : List String)
      → occurs x (gather (Dict.put groups p (Dict.get_or groups p [] ++ m ∷ [])) qs)
        ≡ occurs x (gather groups qs) + (if str_eq m x then occurs p qs else 0)
  unfolding gather occurs
  gather-put groups p m [] = ground arith
  gather-put groups p m (q ∷ qs) =
      let extended = Dict.get_or groups p [] ++ m ∷ [] in
      ground (
        arith,
        gather-put groups p m qs,
        eq_iff p q,
        eq_iff q p,
        get_or-put groups p q extended [],
        occurs-append x (Dict.get_or groups q []) (gather groups qs),
        occurs-append x (Dict.get_or (Dict.put groups p extended) q [])
            (gather (Dict.put groups p extended) qs),
        occurs-append x (Dict.get_or groups p []) (m ∷ []),
      )

  gather-append :
      (groups : Dict (List String)) (ps qs : List String)
      → occurs x (gather groups (ps ++ qs))
        ≡ occurs x (gather groups ps) + occurs x (gather groups qs)
  unfolding gather occurs
  gather-append groups [] qs = omega arith
  gather-append groups (p ∷ ps) qs = omega (
    arith,
    gather-append groups ps qs,
    occurs-append x (Dict.get_or groups p []) (gather groups ps),
    occurs-append x (Dict.get_or groups p []) (gather groups (ps ++ qs)),
  )

-- The providers that have a group are listed, each once.
record IsListed (g : Groups) : Type 0 where
  pub at :
      (p : String)
      → occurs p g.provider_order ≡ elim (Dict.get g.models_by_provider p) [ none ↦ 0 | some _ ↦ 1 ]

group_model-IsListed : (p m : String) (g : Groups) → IsListed g → IsListed (group_model p m g)
unfolding group_model occurs
group_model-IsListed p m g listed = record {
  at = λ q. elim (Option-cases (Dict.get g.models_by_provider p)) [
    | inl e ↦ ground (
      arith,
      e,
      listed.at p,
      listed.at q,
      eq_iff p q,
      occurs-append q g.provider_order (p ∷ []),
      get-put g.models_by_provider p q (Dict.get_or g.models_by_provider p [] ++ m ∷ []),
    )
    | inr (ms, e) ↦ ground (
      arith,
      e,
      listed.at p,
      listed.at q,
      eq_iff p q,
      get-put g.models_by_provider p q (Dict.get_or g.models_by_provider p [] ++ m ∷ []),
    )
  ];
}

-- What the groups hold in their order.
abbrev held : String → Groups → ℕ
held x g = occurs x (gather g.models_by_provider g.provider_order)

group_model-held :
    (x p m : String) (g : Groups)
    → IsListed g
    → held x (group_model p m g) ≡ held x g + occurs x (m ∷ [])
unfolding group_model occurs gather
group_model-held x p m g listed = elim (Option-cases (Dict.get g.models_by_provider p)) [
  | inl e ↦ ground (
    arith,
    e,
    listed.at p,
    eq_iff p p,
    occurs-append p g.provider_order (p ∷ []),
    gather-put x g.models_by_provider p m (g.provider_order ++ p ∷ []),
    gather-append x g.models_by_provider g.provider_order (p ∷ []),
    get-eq-none→get_or g.models_by_provider p [] e,
  )
  | inr (ms, e) ↦
      ground (arith, e, listed.at p, gather-put x g.models_by_provider p m g.provider_order)
]

group_chain-held :
    (x : String) (catalog : Dict ModelCandidate) (ms : List String) (g g' : Groups)
    → IsListed g
    → group_chain catalog ms g ≡ ok g'
    → held x g' ≡ held x g + occurs x ms
unfolding group_chain occurs
group_chain-held x catalog [] g g' listed e = ground arith
group_chain-held x catalog (m ∷ ms) g g' listed e = elim (Option-cases (Dict.get catalog m)) [
  | inl missing ↦ ground (arith, missing)
  | inr (c, found) ↦ ground (
    arith,
    found,
    group_model-held x c.provider m g listed,
    group_chain-held x catalog ms (group_model c.provider m g) g'
        (group_model-IsListed c.provider m g listed),
  )
]

no_groups-IsListed : IsListed no_groups
unfolding occurs Dict.get
no_groups-IsListed = record { at = λ p. refl }

arrange-occurs :
    (x : String) (b : ProviderFallbackScoreboard) (catalog : Dict ModelCandidate) (chosen : String)
    (chain ms : List String) (groups : Result Groups)
    → group_chain catalog chain no_groups ≡ groups
    → arrange b chosen groups ≡ ok ms
    → occurs x ms ≡ occurs x (chosen ∷ chain)
unfolding rank occurs gather
arrange-occurs x b catalog chosen chain ms (err e) grouped arranged = cc
arrange-occurs x b catalog chosen chain ms (ok g) grouped arranged = ground (
  arith,
  group_chain-held x catalog chain no_groups g no_groups-IsListed grouped,
  gather-rank_all x g.models_by_provider b g.provider_order,
)

-- The attempts are the chosen model and the fallback chain in another order: where `_order_attempts`
-- returns, every model is attempted exactly as often as it stands among the chosen model and the chain.
pub order_attempts-occurs :
    (x : String) (b : ProviderFallbackScoreboard) (catalog : Dict ModelCandidate) (chosen : String)
    (chain ms : List String)
    → order_attempts b catalog chosen chain ≡ ok ms
    → occurs x ms ≡ occurs x (chosen ∷ chain)
unfolding order_attempts occurs
order_attempts-occurs x b catalog chosen [] ms e = ground arith
order_attempts-occurs x b catalog chosen (m ∷ chain) ms e =
    arrange-occurs x b catalog chosen (m ∷ chain) ms (group_chain catalog (m ∷ chain) no_groups)
      refl e
