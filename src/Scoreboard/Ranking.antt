-- ===== src/Scoreboard/Ranking.antt =====
-- What `rank` of router/fallback_scoreboard.py promises.
use nexus_llm_router.Prelude.{
  ◌≡◌, refl, String, true, false, Option, none, some, List, [], ◌∷◌, arith, Bool-cases, inl, inr,
  occurs,
}
use nexus_llm_router.Prelude.Ratio.{Ratio}
use nexus_llm_router.Scoreboard.{
  ProviderFallbackScoreboard, rank_key, better, place, rank_all, rank, known_providers,
}

pub occurs-place :
    (b : ProviderFallbackScoreboard) (x p : String) (qs : List String)
    → occurs x (place b p qs) ≡ occurs x (p ∷ qs)
unfolding place occurs
occurs-place b x p [] = refl
occurs-place b x p (q ∷ qs) = ground (arith, occurs-place b x p qs)

pub occurs-rank_all :
    (b : ProviderFallbackScoreboard) (x : String) (ps : List String)
    → occurs x (rank_all b ps) ≡ occurs x ps
unfolding rank_all occurs
occurs-rank_all b x [] = refl
occurs-rank_all b x (p ∷ ps) =
    ground (arith, occurs-place b x p (rank_all b ps), occurs-rank_all b x ps)

-- Ranking loses no provider and repeats none: each occurs as often as in the list that is ranked.
pub occurs-rank :
    (b : ProviderFallbackScoreboard) (x : String) (ps : List String)
    → occurs x (rank b (some ps)) ≡ occurs x ps
unfolding rank
occurs-rank b x ps = occurs-rank_all b x ps

-- No provider stands directly behind one that has a strictly worse score.
abbrev pub IsRanked : ProviderFallbackScoreboard → List String → Type 0
IsRanked b [] = Unit {0}
IsRanked b (p ∷ []) = Unit {0}
IsRanked b (p ∷ q ∷ ps) = (better (rank_key b q) (rank_key b p) ≡ false) × IsRanked b (q ∷ ps)

better_asym : (a c : Option Ratio) → better a c ≡ true → better c a ≡ false
unfolding better
better_asym none c h = cc
better_asym (some a) none h = refl
better_asym (some a) (some c) h = ground arith

place-IsRanked-behind :
    (b : ProviderFallbackScoreboard) (a p : String) (qs : List String)
    → better (rank_key b p) (rank_key b a) ≡ false
    → IsRanked b (a ∷ qs)
    → IsRanked b (a ∷ place b p qs)
unfolding place
place-IsRanked-behind b a p [] h ranked = (h, tt)
place-IsRanked-behind b a p (q ∷ qs) h ranked =
    elim (Bool-cases (better (rank_key b q) (rank_key b p))) [
      | inl over ↦ rw over (
        ranked.0,
        place-IsRanked-behind b q p qs (better_asym (rank_key b q) (rank_key b p) over) ranked.1,
      )
      | inr under ↦ rw under (h, (under, ranked.1))
    ]

place-IsRanked :
    (b : ProviderFallbackScoreboard) (p : String) (qs : List String)
    → IsRanked b qs
    → IsRanked b (place b p qs)
unfolding place
place-IsRanked b p [] ranked = tt
place-IsRanked b p (q ∷ qs) ranked = elim (Bool-cases (better (rank_key b q) (rank_key b p))) [
  | inl over ↦
      rw over
        (place-IsRanked-behind b q p qs (better_asym (rank_key b q) (rank_key b p) over) ranked)
  | inr under ↦ rw under (under, ranked)
]

rank_all-IsRanked : (b : ProviderFallbackScoreboard) (ps : List String) → IsRanked b (rank_all b ps)
unfolding rank_all
rank_all-IsRanked b [] = tt
rank_all-IsRanked b (p ∷ ps) = place-IsRanked b p (rank_all b ps) (rank_all-IsRanked b ps)

-- The ranking is in order: no provider stands directly behind one with a strictly worse score, one
-- without observations counting as worse than any score.
pub rank-IsRanked :
    (b : ProviderFallbackScoreboard) (ps : Option (List String)) → IsRanked b (rank b ps)
unfolding rank known_providers
rank-IsRanked b none = rank_all-IsRanked b (known_providers b)
rank-IsRanked b (some ps) = rank_all-IsRanked b ps
