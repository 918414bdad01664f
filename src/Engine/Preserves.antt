-- ===== src/Engine/Preserves.antt =====
-- What the actions of a request keep: a predicate of the run that holds after an action, answered or
-- raised, when it held before. One rule for each way to build an action.
use nexus_llm_router.Prelude.{
  ◌≡◌, refl, Result, ok, err, Exec, Error, Bool, true, false, Option, none, some,
}
use nexus_llm_router.Prelude.Action.{
  ◌>>=◌, raise_unless, modify, continue, pure, raise, gets, or_raise, zoom, lift, catch,
}
use nexus_llm_router.Engine.State.{NexusRouter}
use nexus_llm_router.Engine.Request.{in_router}

pub record Preserves {S A : Type 0} (P : S → Type 0) (m : Exec S A) : Type 0 where
  pub after : (s : S) → P s → P (m s).1

module _ {S A : Type 0} {P : S → Type 0} where
  pub Preserves-pure : (a : A) → Preserves P (pure a)
  unfolding pure
  Preserves-pure a = record { after = λ s held. held }

  pub Preserves-raise : (e : Error) → Preserves P (raise {A = A} e)
  unfolding raise
  Preserves-raise e = record { after = λ s held. held }

  pub Preserves-gets : (f : S → A) → Preserves P (gets f)
  unfolding gets
  Preserves-gets f = record { after = λ s held. held }

  pub Preserves-or_raise : (o : Option A) (e : Error) → Preserves P (or_raise o e)
  unfolding or_raise
  Preserves-or_raise none e = record { after = λ s held. held }
  Preserves-or_raise (some a) e = record { after = λ s held. held }

  pub Preserves-lift : (r : Result A) → Preserves P (lift {A = A} r)
  unfolding lift
  Preserves-lift r = record { after = λ s held. held }

module _ {S : Type 0} {P : S → Type 0} where
  pub Preserves-modify : (f : S → S) → ((s : S) → P s → P (f s)) → Preserves P (modify f)
  unfolding modify
  Preserves-modify f h = record { after = h }

  pub Preserves-raise_unless : (b : Bool) (e : Error) → Preserves P (raise_unless b e)
  unfolding raise_unless
  Preserves-raise_unless true e = record { after = λ s held. held }
  Preserves-raise_unless false e = record { after = λ s held. held }

module _ {S A B : Type 0} {P : S → Type 0} where
  preserves_continue :
      (r : Result A) (f : A → Exec S B) (s : S)
      → ((a : A) → Preserves P (f a))
      → P s
      → P (continue r f s).1
  unfolding continue
  preserves_continue (ok a) f s k h = (k a).after s h
  preserves_continue (err e) f s k h = h

  pub Preserves-bind :
      (m : Exec S A) (f : A → Exec S B)
      → Preserves P m
      → ((a : A) → Preserves P (f a))
      → Preserves P (m >>= f)
  unfolding ◌>>=◌ continue
  Preserves-bind m f first next = record {
    after = λ s h. preserves_continue (m s).0 f (m s).1 next (first.after s h);
  }

  -- The rest may use that the lookup found its value.
  pub Preserves-bind-or_raise :
      (o : Option A) (e : Error) (f : A → Exec S B)
      → ((a : A) → o ≡ some a → Preserves P (f a))
      → Preserves P (or_raise o e >>= f)
  unfolding ◌>>=◌ continue or_raise pure raise
  Preserves-bind-or_raise none e f k = record { after = λ s held. held }
  Preserves-bind-or_raise (some a) e f k = k a refl

  pub Preserves-catch :
      (m : Exec S A) (f : Result A → Exec S B)
      → Preserves P m
      → ((r : Result A) → Preserves P (f r))
      → Preserves P (catch m f)
  unfolding catch
  Preserves-catch m f first next = record {
    after = λ s h. (next (m s).0).after (m s).1 (first.after s h);
  }

-- A method of a part of the object keeps what does not depend on the part.
pub Preserves-zoom :
    {S T A : Type 0} {P : S → Type 0} (part : S → T) (replace : T → S → S) (m : Exec T A)
    → ((t : T) (s : S) → P s → P (replace t s))
    → Preserves P (zoom part replace m)
unfolding zoom
Preserves-zoom part replace m h = record { after = λ s p. h (m (part s)).1 s p }

-- A method of the router keeps of a run what it keeps of the router.
pub Preserves-in_router :
    {A : Type 0} {Q : NexusRouter → Type 0} (m : Exec NexusRouter A)
    → Preserves Q m
    → Preserves (λ s. Q s.router) (in_router m)
unfolding zoom
Preserves-in_router m k = record { after = λ s h. k.after s.router h }

pub ruleset preserving = (
  Preserves-pure, Preserves-raise, Preserves-gets, Preserves-or_raise, Preserves-modify,
  Preserves-raise_unless, Preserves-bind, Preserves-zoom, Preserves-lift, Preserves-catch,
)
