-- ===== src/Safety/StreamBudget/Stops.antt =====
-- When a stream is stopped.
use nexus_llm_router.Prelude.{
  ℕ, ◌+◌, ◌≡◌, inl, inr, refl, Bool, true, false, List, [], ◌∷◌, if◌then◌else◌, arith, Bool-cases,
}
use nexus_llm_router.Prelude.Int.{pos}
use nexus_llm_router.Safety.StreamBudget.{
  StreamingTokenBudgetGate, evaluate_exhaustion, counted_chunk, observe_chunk, allow_continue,
  reached,
}

-- The chunks of a stream, by their tokens and their cost.
abbrev pub Chunks : Type 0
Chunks = List (ℕ × ℕ)

unfoldable pub observe_all : Chunks → StreamingTokenBudgetGate → StreamingTokenBudgetGate
observe_all [] g = g
observe_all ((tokens, cost) ∷ chunks) g =
    observe_all chunks (observe_chunk (pos tokens) (pos cost) false g).1

-- A gate that is open has reached none of its budgets.
abbrev pub IsHonest : StreamingTokenBudgetGate → Type 0
IsHonest g =
    g.exhausted ≡ false
    → (reached g.tokens_used g.max_tokens ≡ false) × (reached g.cost g.max_cost ≡ false)

evaluate_exhaustion-IsHonest : (g : StreamingTokenBudgetGate) → IsHonest (evaluate_exhaustion g)
unfolding evaluate_exhaustion
evaluate_exhaustion-IsHonest g = elim (Bool-cases g.exhausted) [
  | inl shut ↦ rw shut (λ h. cc)
  | inr open_yet ↦ rw open_yet (elim (Bool-cases (reached g.tokens_used g.max_tokens)) [
    | inl spent ↦ rw spent (λ h. cc)
    | inr left ↦ rw left (elim (Bool-cases (reached g.cost g.max_cost)) [
      | inl paid ↦ rw paid (λ h. cc)
      | inr cheap ↦ rw cheap (λ h. (left, cheap))
    ])
  ])
]

pub sum_tokens : Chunks → ℕ
sum_tokens [] = 0
sum_tokens ((tokens, cost) ∷ chunks) = tokens + sum_tokens chunks

frozen :
    (tokens cost : ℕ) (g : StreamingTokenBudgetGate)
    → g.exhausted ≡ true
    → counted_chunk tokens cost g ≡ g
unfolding counted_chunk
frozen tokens cost g h = rw h refl

-- Once a gate is exhausted it stays as it is: further chunks change none of its counters.
pub observe_all-exhausted :
    (chunks : Chunks) (g : StreamingTokenBudgetGate) → g.exhausted ≡ true → observe_all chunks g ≡ g
unfolding observe_all observe_chunk
observe_all-exhausted [] g h = refl
observe_all-exhausted ((tokens, cost) ∷ chunks) g h =
    rw (frozen tokens cost g h) (observe_all-exhausted chunks g h)

if-IsHonest :
    (b : Bool) (x y : StreamingTokenBudgetGate)
    → IsHonest x
    → IsHonest y
    → IsHonest (if b then x else y)
if-IsHonest true x y h k = h
if-IsHonest false x y h k = k

counted_chunk-IsHonest :
    (tokens cost : ℕ) (g : StreamingTokenBudgetGate)
    → IsHonest g
    → IsHonest (counted_chunk tokens cost g)
unfolding counted_chunk
counted_chunk-IsHonest tokens cost g honest = if-IsHonest g.exhausted g _ honest (
    evaluate_exhaustion-IsHonest
      (record g { tokens_used = g.tokens_used + tokens; cost = g.cost + cost }))

evaluate_exhaustion-tokens :
    (g : StreamingTokenBudgetGate) → (evaluate_exhaustion g).tokens_used ≡ g.tokens_used
unfolding evaluate_exhaustion
evaluate_exhaustion-tokens g = ground arith

counted_chunk-tokens :
    (tokens cost : ℕ) (g : StreamingTokenBudgetGate)
    → (counted_chunk tokens cost g).exhausted ≡ false
    → (counted_chunk tokens cost g).tokens_used ≡ g.tokens_used + tokens
unfolding counted_chunk
counted_chunk-tokens tokens cost g h = ground (
  arith,
  evaluate_exhaustion-tokens
      (record g { tokens_used = g.tokens_used + tokens; cost = g.cost + cost }),
)

-- A stream goes on only within its budgets: if an honest gate is still open after any chunks, then
-- every chunk's tokens were counted, and what was used has reached neither the token budget nor the
-- cost budget.
pub observe_all-open :
    (chunks : Chunks) (g : StreamingTokenBudgetGate)
    → IsHonest g
    → allow_continue (observe_all chunks g) ≡ true
    → let g' = observe_all chunks g in
      (g'.tokens_used ≡ g.tokens_used + sum_tokens chunks)
      × (reached g'.tokens_used g'.max_tokens ≡ false)
      × (reached g'.cost g'.max_cost ≡ false)
unfolding observe_all observe_chunk allow_continue sum_tokens
observe_all-open [] g honest h =
    let open_yet : g.exhausted ≡ false = ground arith in
    (omega arith, (honest open_yet).0, (honest open_yet).1)
observe_all-open ((tokens, cost) ∷ chunks) g honest h =
    let g1 = counted_chunk tokens cost g in
    let rest = observe_all-open chunks g1 (counted_chunk-IsHonest tokens cost g honest) h in
    elim (Bool-cases g1.exhausted) [
      | inl shut ↦ ground (arith, observe_all-exhausted chunks g1 shut)
      | inr open_yet ↦
          (omega (arith, rest.0, counted_chunk-tokens tokens cost g open_yet), rest.1, rest.2)
    ]
