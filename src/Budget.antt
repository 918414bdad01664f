-- ===== src/Budget.antt =====
-- safety/budget.py: `BudgetGuardrail`. Money is counted in whole units, so that sums are exact.
-- `_EPSILON_USD`, the slack for the rounding of floating-point sums, is a number of units too.
pub mod Caps
pub mod Overlaps
use nexus_llm_router.Prelude.{
  ℕ, ◌+◌, String, Exec, ok, err, budget_exceeded, ltb, if◌then◌else◌, [],
}
use nexus_llm_router.Prelude.Dict
use nexus_llm_router.Prelude.Dict.{Dict}

pub record BudgetGuardrail : Type 0 where
  pub cap : ℕ
  pub epsilon : ℕ
  pub spend_by_subject : Dict ℕ

abbrev pub init : ℕ → ℕ → BudgetGuardrail
init cap epsilon = record { cap = cap; epsilon = epsilon; spend_by_subject = [] }

unfoldable pub spent : BudgetGuardrail → String → ℕ
spent b subject = Dict.get_or b.spend_by_subject subject 0

unfoldable pub assert_can_spend : String → ℕ → Exec BudgetGuardrail (Unit {0})
unfolding spent
assert_can_spend subject estimated_cost b =
    if ltb (b.cap + b.epsilon) (spent b subject + estimated_cost)
    then (err budget_exceeded, b)
    else (ok tt, b)

unfoldable pub record_spend : String → ℕ → BudgetGuardrail → BudgetGuardrail
unfolding spent
record_spend subject cost b = record b {
  spend_by_subject = Dict.put b.spend_by_subject subject (spent b subject + cost);
}
