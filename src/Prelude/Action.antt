-- ===== src/Prelude/Action.antt =====
-- Building actions: methods that read and write an object and may raise.
use mathlib.Core.Bool.{Bool, true, false}
use mathlib.Core.Option.{Option, none, some}
use package.nexus_llm_router.Prelude.Errors.{Error, Result, ok, err, Exec}

module _ {S A : Type 0} where
  unfoldable pub pure : A → Exec S A
  pure a s = (ok a, s)

  unfoldable pub raise : Error → Exec S A
  raise e s = (err e, s)

  unfoldable pub gets : (S → A) → Exec S A
  gets f s = (ok (f s), s)

  unfoldable pub or_raise : Option A → Error → Exec S A
  unfolding pure raise
  or_raise none e = raise e
  or_raise (some a) _ = pure a

  -- A result that was computed without the object.
  unfoldable pub lift : Result A → Exec S A
  lift r s = (r, s)

module _ {S : Type 0} where
  unfoldable pub modify : (S → S) → Exec S (Unit {0})
  modify f s = (ok tt, f s)

  unfoldable pub raise_unless : Bool → Error → Exec S (Unit {0})
  raise_unless true e s = (ok tt, s)
  raise_unless false e s = (err e, s)

infixl 5 ◌>>=◌ ◌>>◌
unfoldable pub continue : {S A B : Type 0} → Result A → (A → Exec S B) → Exec S B
continue (ok a) f s = f a s
continue (err e) f s = (err e, s)

unfoldable pub ◌>>=◌ : {S A B : Type 0} → Exec S A → (A → Exec S B) → Exec S B
unfolding continue
◌>>=◌ m f s = let (r, s') = m s in continue r f s'

abbrev pub ◌>>◌ : {S B : Type 0} → Exec S (Unit {0}) → Exec S B → Exec S B
m >> k = m >>= λ _. k

-- `try` and `except`: what follows depends on how the action ended.
unfoldable pub catch : {S A B : Type 0} → Exec S A → (Result A → Exec S B) → Exec S B
catch m f s = let (r, s') = m s in f r s'

-- A method of a part of the object.
unfoldable pub zoom : {S T A : Type 0} → (S → T) → (T → S → S) → Exec T A → Exec S A
zoom part replace m s = let (r, t) = m (part s) in (r, replace t s)
