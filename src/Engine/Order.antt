-- ===== src/Engine/Order.antt =====
-- `_order_attempts` of router/engine.py.
pub mod Known
pub mod Counts
use nexus_llm_router.Prelude.{
  String, Bool, Option, none, some, Result, ok, err, key_error, List, [], ◌∷◌, ◌++◌,
}
use nexus_llm_router.Prelude.Dict
use nexus_llm_router.Prelude.Dict.{Dict}
use nexus_llm_router.Schemas.{ModelCandidate}
use nexus_llm_router.Scoreboard.{ProviderFallbackScoreboard, rank}

-- `provider_order` and `models_by_provider`
pub record Groups : Type 0 where
  pub provider_order : List String
  pub models_by_provider : Dict (List String)

-- One round of the loop over the chain.
unfoldable pub group_model : String → String → Groups → Groups
group_model provider model_name g =
    let models = Dict.get_or g.models_by_provider provider [] in
    record {
      provider_order = elim (Dict.get g.models_by_provider provider) [
        | none ↦ g.provider_order ++ provider ∷ []
        | some _ ↦ g.provider_order
      ];
      models_by_provider = Dict.put g.models_by_provider provider (models ++ model_name ∷ []);
    }

unfoldable pub group_chain : Dict ModelCandidate → List String → Groups → Result Groups
unfolding group_model
group_chain catalog [] g = ok g
group_chain catalog (model_name ∷ chain) g = elim (Dict.get catalog model_name) [
  | none ↦ err key_error
  | some candidate ↦ group_chain catalog chain (group_model candidate.provider model_name g)
]

-- `[m for provider in ranked_providers for m in models_by_provider[provider]]`
unfoldable pub gather : Dict (List String) → List String → List String
gather groups [] = []
gather groups (provider ∷ providers) = Dict.get_or groups provider [] ++ gather groups providers

abbrev pub no_groups : Groups
no_groups = record { provider_order = []; models_by_provider = [] }

-- The attempts from the groups of the chain.
abbrev pub arrange : ProviderFallbackScoreboard → String → Result Groups → Result (List String)
arrange scoreboard chosen_model (err e) = err e
arrange scoreboard chosen_model (ok g) =
    ok (chosen_model ∷ gather g.models_by_provider (rank scoreboard (some g.provider_order)))

unfoldable pub order_attempts :
    ProviderFallbackScoreboard → Dict ModelCandidate → String → List String → Result (List String)
unfolding group_chain gather rank
order_attempts scoreboard catalog chosen_model [] = ok (chosen_model ∷ [])
order_attempts scoreboard catalog chosen_model (m ∷ chain) =
    arrange scoreboard chosen_model (group_chain catalog (m ∷ chain) no_groups)
