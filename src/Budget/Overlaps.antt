-- ===== src/Budget/Overlaps.antt =====
-- Requests that overlap: each is checked, waits for its provider, and is charged or not. The check
-- reserves nothing.
use nexus_llm_router.Prelude.{
  ℕ, zero, suc, ◌+◌, ◌*◌, ◌≤◌, ◌≡◌, refl, String, List, [], ◌∷◌, ◌++◌, ok, err, Error, Bool-cases,
  inl, inr, if◌then◌else◌, arith, str_eq, eq_iff,
}
use native.Mathlib.Nat.{suc-mul}
use nexus_llm_router.Prelude.Dict
use nexus_llm_router.Budget.{BudgetGuardrail, init, spent, assert_can_spend, record_spend}
use nexus_llm_router.Budget.Caps.{spent-record_spend}

-- A request that has passed the check.
pub record Flight : Type 0 where
  pub subject : String
  pub estimate : ℕ

pub record Traffic : Type 0 where
  pub guardrail : BudgetGuardrail
  pub in_flight : List Flight

-- The requests of a subject that are in flight, and the sum of their estimates.
unfoldable pub flights : String → List Flight → ℕ
flights s [] = 0
flights s (f ∷ fs) = let rest = flights s fs in if str_eq f.subject s then suc rest else rest

unfoldable pub pending : String → List Flight → ℕ
pending s [] = 0
pending s (f ∷ fs) =
    let rest = pending s fs in if str_eq f.subject s then f.estimate + rest else rest

abbrev pub Estimates : ℕ → List Flight → Type 0
Estimates most [] = Unit {0}
Estimates most (f ∷ fs) = (f.estimate ≤ most) × Estimates most fs

-- The steps of overlapping requests, where no estimate is above `most` and no subject has more than
-- `suc others` requests in flight: a check that passes, a check that fails, a charge of no more than the
-- estimate, and a request whose provider fails.
pub data Step (others most : ℕ) : Traffic → Traffic → Type 0 where
  passed :
      (t : Traffic) (s : String) (n : ℕ)
      → n ≤ most
      → flights s t.in_flight ≤ others
      → (assert_can_spend s n t.guardrail).0 ≡ ok tt
      → Step others most t (record {
        guardrail = (assert_can_spend s n t.guardrail).1;
        in_flight = record { subject = s; estimate = n } ∷ t.in_flight;
      })
  refused :
      (t : Traffic) (s : String) (n : ℕ) (e : Error)
      → (assert_can_spend s n t.guardrail).0 ≡ err e
      → Step others most t (record t { guardrail = (assert_can_spend s n t.guardrail).1 })
  charged :
      (t : Traffic) (before after : List Flight) (f : Flight) (cost : ℕ)
      → t.in_flight ≡ before ++ f ∷ after
      → cost ≤ f.estimate
      → Step others most t (record {
        guardrail = record_spend f.subject cost t.guardrail;
        in_flight = before ++ after;
      })
  dropped :
      (t : Traffic) (before after : List Flight) (f : Flight)
      → t.in_flight ≡ before ++ f ∷ after
      → Step others most t (record t { in_flight = before ++ after })

-- What a fresh guardrail comes to.
pub data Reached (others most cap epsilon : ℕ) : Traffic → Type 0 where
  fresh : Reached others most cap epsilon (record { guardrail = init cap epsilon; in_flight = [] })
  next :
      (t u : Traffic)
      → Reached others most cap epsilon t
      → Step others most t u
      → Reached others most cap epsilon u

pending-append :
    (s : String) (xs ys : List Flight) → pending s (xs ++ ys) ≡ pending s xs + pending s ys
unfolding pending
pending-append s [] ys = omega arith
pending-append s (x ∷ xs) ys = ground (arith, pending-append s xs ys)

Estimates-without :
    (most : ℕ) (xs ys : List Flight) (f : Flight)
    → Estimates most (xs ++ f ∷ ys)
    → Estimates most (xs ++ ys)
Estimates-without most [] ys f h = h.1
Estimates-without most (x ∷ xs) ys f h = (h.0, Estimates-without most xs ys f h.1)

pending-le :
    (s : String) (most n : ℕ) (fs : List Flight)
    → Estimates most fs
    → flights s fs ≤ n
    → pending s fs ≤ n * most
unfolding flights pending
pending-le s most n [] h k = omega arith
pending-le s most zero (f ∷ fs) h k =
    ground (arith, k, pending-le s most zero fs h.1 (ground (arith, k)))
pending-le s most (suc m) (f ∷ fs) h k = elim (Bool-cases (str_eq f.subject s)) [
  | inl same ↦
      rw same
        (omega (arith, h.0, suc-mul m most, pending-le s most m fs h.1 (ground (arith, k, same))))
  | inr other ↦ rw other (pending-le s most (suc m) fs h.1 (ground (arith, k, other)))
]

-- The invariant: what is spent and what is pending together.
record IsCovered (others most cap epsilon : ℕ) (t : Traffic) : Type 0 where
  pub estimates : Estimates most t.in_flight
  pub limits : (t.guardrail.cap ≡ cap) × (t.guardrail.epsilon ≡ epsilon)
  pub covered :
      (s : String) → spent t.guardrail s + pending s t.in_flight ≤ cap + epsilon + others * most

module _ (others most cap epsilon : ℕ) where
  step-IsCovered :
      (t u : Traffic)
      → Step others most t u
      → IsCovered others most cap epsilon t
      → IsCovered others most cap epsilon u
  unfolding assert_can_spend pending record_spend
  step-IsCovered _ _ (passed t s n small room fine) h = record {
    estimates = (small, ground (arith, h.estimates));
    limits = ground (arith, h.limits);
    covered = λ q. ground (
      arith,
      fine,
      h.limits,
      h.covered q,
      eq_iff s q,
      pending-le s most others t.in_flight h.estimates room,
    );
  }
  step-IsCovered _ _ (refused t s n e fails) h = record {
    estimates = h.estimates;
    limits = ground (arith, h.limits);
    covered = λ q. ground (arith, h.covered q);
  }
  step-IsCovered _ _ (charged t before after f cost flying small) h = record {
    estimates = Estimates-without most before after f (rw (← flying) h.estimates);
    limits = h.limits;
    covered = λ q. ground (
      arith,
      h.covered q,
      flying,
      pending-append q before (f ∷ after),
      pending-append q before after,
      spent-record_spend t.guardrail f.subject q cost,
      eq_iff f.subject q,
    );
  }
  step-IsCovered _ _ (dropped t before after f flying) h = record {
    estimates = Estimates-without most before after f (rw (← flying) h.estimates);
    limits = h.limits;
    covered = λ q. ground (
      arith,
      h.covered q,
      flying,
      pending-append q before (f ∷ after),
      pending-append q before after,
    );
  }

  Reached-IsCovered :
      (t : Traffic) → Reached others most cap epsilon t → IsCovered others most cap epsilon t
  unfolding spent pending Dict.get_or
  Reached-IsCovered _ fresh = record {
    estimates = tt;
    limits = (refl, refl);
    covered = λ q. omega arith;
  }
  Reached-IsCovered _ (next t u reached step) =
      step-IsCovered t u step (Reached-IsCovered t reached)

  -- However checks, charges and failures of overlapping requests interleave, no subject is over the cap by
  -- more than the slack and the largest estimate times the number of its other requests in flight. No
  -- request costs more than its estimate, no estimate is above `most`, and no subject has more than
  -- `others` requests beside the one that is checked.
  pub spent-overlapping :
      (t : Traffic) (s : String)
      → Reached others most cap epsilon t
      → spent t.guardrail s ≤ cap + epsilon + others * most
  spent-overlapping t s reached = omega (arith, (Reached-IsCovered t reached).covered s)
