-- ===== src/Prelude/Errors.antt =====
-- Exceptions as values, and methods that mutate an object and may raise. What was written before a
-- raise stays written, so the state comes back beside the error too.
use mathlib.Core.Bool.{Bool}
use mathlib.Core.Option.{Option}
use package.nexus_llm_router.Prelude.Int.{ℤ}

-- What the engine reads off an exception of a provider: whether it carries a rate-limit signal, and
-- the wait that it asks for.
pub record Failure : Type 0 where
  pub rate_limited : Bool
  pub retry_after : Option ℤ

-- The exception classes that the modelled code raises or handles.
pub data Error : Type 0 where
  value_error key_error index_error state_transition : Error
  circuit_open rate_limit_exceeded tenant_rate_limit_exceeded budget_exceeded : Error
  routing_failed storage_error validation_error : Error
  concurrency_exceeded stream_exhausted error_budget_exceeded : Error
  key_in_use : Error
  provider_error : Failure → Error

pub data Result {ℓ} (A : Type ℓ) : Type ℓ where
  ok : A → Result A
  err : Error → Result A

abbrev pub Exec {ℓ} : Type ℓ → Type ℓ → Type ℓ
Exec S A = S → Result A × S
