-- ===== src/Engine/Order/Known.antt =====
-- The attempts name models of the catalog, when the decision does.
use nexus_llm_router.Prelude.{
  ◌≡◌, refl, String, some, ok, List, [], ◌∷◌, ◌++◌, str_eq, Bool-cases, inl, inr,
}
use nexus_llm_router.Prelude.Dict
use nexus_llm_router.Prelude.Dict.{Dict, get_or-put}
use nexus_llm_router.Schemas.{ModelCandidate}
use nexus_llm_router.Scoreboard.{ProviderFallbackScoreboard, rank}
use nexus_llm_router.Engine.Order.{
  Groups, group_model, group_chain, gather, no_groups, order_attempts,
}

-- Every model is in the catalog.
abbrev pub Known : Dict ModelCandidate → List String → Type 0
Known catalog [] = Unit {0}
Known catalog (m ∷ ms) = ((c : ModelCandidate) × (Dict.get catalog m ≡ some c)) × Known catalog ms

module _ (catalog : Dict ModelCandidate) where
  Known-append :
      (xs ys : List String) → Known catalog xs → Known catalog ys → Known catalog (xs ++ ys)
  Known-append [] ys h k = k
  Known-append (x ∷ xs) ys h k = (h.0, Known-append xs ys h.1 k)

  abbrev KnownGroups : Dict (List String) → Type 0
  KnownGroups groups = (p : String) → Known catalog (Dict.get_or groups p [])

  Known-gather :
      (groups : Dict (List String)) (ps : List String)
      → KnownGroups groups
      → Known catalog (gather groups ps)
  unfolding gather
  Known-gather groups [] h = tt
  Known-gather groups (p ∷ ps) h = Known-append _ _ (h p) (Known-gather groups ps h)

  KnownGroups-group_model :
      (p m : String) (g : Groups)
      → KnownGroups g.models_by_provider
      → ((c : ModelCandidate) × (Dict.get catalog m ≡ some c))
      → KnownGroups (group_model p m g).models_by_provider
  unfolding group_model
  KnownGroups-group_model p m g h k q = elim (Bool-cases (str_eq p q)) [
    | inl same ↦
        rw
          (
            get_or-put g.models_by_provider p q (Dict.get_or g.models_by_provider p [] ++ m ∷ [])
                [],
            same,
          )
          (Known-append _ (m ∷ []) (h p) (k, tt))
    | inr other ↦
        rw
          (
            get_or-put g.models_by_provider p q (Dict.get_or g.models_by_provider p [] ++ m ∷ [])
                [],
            other,
          )
          (h q)
  ]

  group_chain-Known :
      (ms : List String) (g : Groups)
      → Known catalog ms
      → KnownGroups g.models_by_provider
      → (g' : Groups) × (group_chain catalog ms g ≡ ok g') × KnownGroups g'.models_by_provider
  unfolding group_chain
  group_chain-Known [] g known h = (g, refl, h)
  group_chain-Known (m ∷ ms) g known h =
      let ((c, found), rest) = known in
      rw (found, group_chain)
        (group_chain-Known ms (group_model c.provider m g) rest
          (KnownGroups-group_model c.provider m g h (c, found)))

  -- When the decision names models of the catalog only, `_order_attempts` does not raise: it puts the
  -- chosen model first, and names models of the catalog only.
  pub order_attempts-Known :
      (b : ProviderFallbackScoreboard) (chosen : String) (chain : List String)
      → Known catalog (chosen ∷ chain)
      → (ms : List String) × (order_attempts b catalog chosen chain ≡ ok (chosen ∷ ms))
        × Known catalog ms
  unfolding order_attempts Dict.get_or
  order_attempts-Known b chosen [] known = ([], refl, tt)
  order_attempts-Known b chosen (m ∷ chain) known =
      let (g, e, h) = group_chain-Known (m ∷ chain) no_groups known.1 (λ p. tt) in
      (
        gather g.models_by_provider (rank b (some g.provider_order)),
        rw e refl,
        Known-gather g.models_by_provider _ h,
      )
