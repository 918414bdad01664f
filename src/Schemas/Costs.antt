-- ===== src/Schemas/Costs.antt =====
-- What a request is estimated to cost.
use nexus_llm_router.Prelude.{ℕ, ◌*◌, ◌≤◌, ◌≡◌, some, arith, Option-cases, inl, inr}
use native.Mathlib.Nat.{mul-le-mul_left, mul-le-mul_right, le_trans}
use nexus_llm_router.Schemas.{
  ModelCandidate, LongPromptPricing, rates_for, billed_rates, estimate_cost,
}

-- Long prompts are never billed below the standard rates.
pub record IsPriced (c : ModelCandidate) : Type 0 where
  pub dearer :
      (p : LongPromptPricing)
      → c.long_prompt_pricing ≡ some p
      → (c.input_cost_per_1k ≤ p.input_cost_per_1k) × (c.output_cost_per_1k ≤ p.output_cost_per_1k)

-- The rates never fall as a prompt grows.
billed_rates_mono :
    (c : ModelCandidate) (m n : ℕ)
    → IsPriced c
    → m ≤ n
    → ((billed_rates c m).0 ≤ (billed_rates c n).0) × ((billed_rates c m).1 ≤ (billed_rates c n).1)
unfolding billed_rates rates_for
billed_rates_mono c m n priced h = elim (Option-cases c.long_prompt_pricing) [
  | inl e ↦ ground (arith, e)
  | inr (p, e) ↦ ground (arith, e, priced.dearer p e)
]

mul_mono : (a b c d : ℕ) → a ≤ c → b ≤ d → a * b ≤ c * d
mul_mono a b c d h k = le_trans (mul-le-mul_right b h) (mul-le-mul_left c k)

-- Where the long-prompt rates are not below the standard ones, the estimate never falls as the
-- prompt or the output grows, across the threshold too.
pub estimate_cost_mono :
    (c : ModelCandidate) (m n a b : ℕ)
    → IsPriced c
    → m ≤ n
    → a ≤ b
    → estimate_cost c m a ≤ estimate_cost c n b
unfolding estimate_cost
estimate_cost_mono c m n a b priced h k =
    let rates = billed_rates_mono c m n priced h in
    omega (
      arith,
      mul_mono m (billed_rates c m).0 n (billed_rates c n).0 h rates.0,
      mul_mono a (billed_rates c m).1 b (billed_rates c n).1 k rates.1,
    )
