-- ===== src/Safety/StreamBudget.antt =====
-- safety/stream_budget.py: `StreamingTokenBudgetGate`. The lock of the class makes each method one
-- step. Money is counted in whole units, and a reason is the budget that its text names.
pub mod Stops
use nexus_llm_router.Prelude.{
  ℕ, ◌+◌, ◌-◌, Bool, true, false, ◌&&◌, Option, none, some, Result, Exec, ok, err, value_error,
  stream_exhausted, leb, if◌then◌else◌,
}
use nexus_llm_router.Prelude.Int.{ℤ, pos, negsuc, pos_part, leb_ℤ}

pub data Reason : Type 0 where
  token_budget cost_budget : Reason

pub record StreamBudgetSnapshot : Type 0 where
  pub tokens_used : ℕ
  pub cost : ℕ
  pub max_tokens : Option ℕ
  pub max_cost : Option ℕ
  pub exhausted : Bool
  pub reason : Option Reason

-- The gate holds what its snapshot shows.
abbrev pub StreamingTokenBudgetGate : Type 0
StreamingTokenBudgetGate = StreamBudgetSnapshot

-- `budget is not None and budget <= 0`
abbrev is_bad : Option ℤ → Bool
is_bad none = false
is_bad (some n) = leb_ℤ n (pos 0)

abbrev limit_of : Option ℤ → Option ℕ
limit_of none = none
limit_of (some n) = some (pos_part n)

abbrev is_unset : Option ℤ → Bool
is_unset none = true
is_unset (some n) = false

unfoldable pub init : Option ℤ → Option ℤ → Result StreamingTokenBudgetGate
init max_tokens max_cost =
    if is_unset max_tokens && is_unset max_cost
    then err value_error
    else if is_bad max_tokens
    then err value_error
    else if is_bad max_cost
    then err value_error
    else ok (record {
      tokens_used = 0;
      cost = 0;
      max_tokens = limit_of max_tokens;
      max_cost = limit_of max_cost;
      exhausted = false;
      reason = none;
    })

-- Whether a limit is set and reached.
abbrev pub reached : ℕ → Option ℕ → Bool
reached used none = false
reached used (some limit) = leb limit used

-- `_evaluate_exhaustion_locked`
unfoldable pub evaluate_exhaustion : StreamingTokenBudgetGate → StreamingTokenBudgetGate
evaluate_exhaustion g =
    if g.exhausted
    then g
    else if reached g.tokens_used g.max_tokens
    then record g { exhausted = true; reason = some token_budget }
    else if reached g.cost g.max_cost
    then record g { exhausted = true; reason = some cost_budget }
    else g

unfoldable pub remaining_tokens : StreamingTokenBudgetGate → Option ℕ
remaining_tokens g = elim g.max_tokens [ none ↦ none | some n ↦ some (n - g.tokens_used) ]

unfoldable pub remaining_cost : StreamingTokenBudgetGate → Option ℕ
remaining_cost g = elim g.max_cost [ none ↦ none | some n ↦ some (n - g.cost) ]

unfoldable pub allow_continue : StreamingTokenBudgetGate → Bool
allow_continue g = if g.exhausted then false else true

-- The gate after a chunk whose numbers are not negative.
unfoldable pub counted_chunk : ℕ → ℕ → StreamingTokenBudgetGate → StreamingTokenBudgetGate
unfolding evaluate_exhaustion
counted_chunk tokens cost g =
    if g.exhausted
    then g
    else evaluate_exhaustion
        (record g { tokens_used = g.tokens_used + tokens; cost = g.cost + cost })

unfoldable pub observe_chunk : ℤ → ℤ → Bool → Exec StreamingTokenBudgetGate StreamBudgetSnapshot
unfolding counted_chunk
observe_chunk (negsuc n) cost hard_stop g = (err value_error, g)
observe_chunk (pos tokens) (negsuc n) hard_stop g = (err value_error, g)
observe_chunk (pos tokens) (pos cost) hard_stop g =
    let g' = counted_chunk tokens cost g in
    if hard_stop && g'.exhausted then (err stream_exhausted, g') else (ok g', g')

unfoldable pub assert_within_budget : Exec StreamingTokenBudgetGate (Unit {0})
assert_within_budget g = if g.exhausted then (err stream_exhausted, g) else (ok tt, g)

unfoldable pub reset : StreamingTokenBudgetGate → StreamingTokenBudgetGate
reset g = record g { tokens_used = 0; cost = 0; exhausted = false; reason = none }
