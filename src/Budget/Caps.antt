-- ===== src/Budget/Caps.antt =====
-- What the cap guarantees to requests that are served one after the other.
use nexus_llm_router.Prelude.{
  ℕ, ◌+◌, ◌≤◌, ◌≡◌, String, List, [], ◌∷◌, Result, ok, err, if◌then◌else◌, arith, str_eq, eq_iff,
}
use nexus_llm_router.Prelude.Dict
use nexus_llm_router.Prelude.Dict.{get_or-put}
use nexus_llm_router.Budget.{BudgetGuardrail, init, spent, assert_can_spend, record_spend}

pub spent-record_spend :
    (b : BudgetGuardrail) (s t : String) (cost : ℕ)
    → spent (record_spend s cost b) t ≡ (if str_eq s t then spent b s + cost else spent b t)
unfolding spent record_spend
spent-record_spend b s t cost = get_or-put b.spend_by_subject s t (spent b s + cost) 0

-- A request in sequence: it is checked against its estimate, and charged if it passes.
pub record Charge : Type 0 where
  pub subject : String
  pub estimate : ℕ
  pub cost : ℕ

charge : Result (Unit {0}) → Charge → BudgetGuardrail → BudgetGuardrail
charge (ok _) c b = record_spend c.subject c.cost b
charge (err _) c b = b

pub serve_one : Charge → BudgetGuardrail → BudgetGuardrail
unfolding charge
serve_one c b = let (answer, b') = assert_can_spend c.subject c.estimate b in charge answer c b'

pub serve : List Charge → BudgetGuardrail → BudgetGuardrail
serve [] b = b
serve (c ∷ cs) b = serve cs (serve_one c b)

-- No charge is above its estimate.
abbrev pub Estimated : List Charge → Type 0
Estimated [] = Unit {0}
Estimated (c ∷ cs) = (c.cost ≤ c.estimate) × Estimated cs

-- The invariant of the guardrail: no subject is over the cap by more than the slack.
abbrev pub IsWithin : BudgetGuardrail → Type 0
IsWithin b = (s : String) → spent b s ≤ b.cap + b.epsilon

serve_one_cap :
    (c : Charge) (b : BudgetGuardrail)
    → ((serve_one c b).cap ≡ b.cap) × ((serve_one c b).epsilon ≡ b.epsilon)
unfolding serve_one assert_can_spend record_spend
serve_one_cap c b = ground arith

serve_one-IsWithin :
    (c : Charge) (b : BudgetGuardrail) → c.cost ≤ c.estimate → IsWithin b → IsWithin (serve_one c b)
unfolding serve_one assert_can_spend
serve_one-IsWithin c b h within s = ground (
  arith,
  within s,
  within c.subject,
  spent-record_spend b c.subject s c.cost,
  eq_iff c.subject s,
  serve_one_cap c b,
)

serve-IsWithin-at :
    (cs : List Charge) (b : BudgetGuardrail) → Estimated cs → IsWithin b → IsWithin (serve cs b)
unfolding serve
serve-IsWithin-at [] b e within = within
serve-IsWithin-at (c ∷ cs) b e within =
    serve-IsWithin-at cs (serve_one c b) e.1 (serve_one-IsWithin c b e.0 within)

-- Requests that are checked and charged one after the other never take a subject over the cap by
-- more than the slack, as long as no request costs more than its estimate.
pub serve-IsWithin :
    (cap epsilon : ℕ) (cs : List Charge) → Estimated cs → IsWithin (serve cs (init cap epsilon))
unfolding spent Dict.get_or
serve-IsWithin cap epsilon cs e = serve-IsWithin-at cs (init cap epsilon) e (λ s. omega arith)

-- The spend of a subject is the sum of what was recorded for it.
pub recorded : String → List (String × ℕ) → ℕ
recorded s [] = 0
recorded s ((t, n) ∷ es) = let rest = recorded s es in if str_eq t s then n + rest else rest

pub record_all : List (String × ℕ) → BudgetGuardrail → BudgetGuardrail
record_all [] b = b
record_all ((t, n) ∷ es) b = record_all es (record_spend t n b)

-- After any charges `spent` is what it was and the sum of the subject's own charges.
pub spent-record_all :
    (es : List (String × ℕ)) (b : BudgetGuardrail) (s : String)
    → spent (record_all es b) s ≡ spent b s + recorded s es
unfolding record_all recorded
spent-record_all [] b s = omega arith
spent-record_all ((t, n) ∷ es) b s =
    ground
      (arith, spent-record_all es (record_spend t n b) s, spent-record_spend b t s n, eq_iff t s)
