-- ===== src/Engine/Stream/Triple.antt =====
-- What holds after an action, by how it ended, for the actions of router/engine.py.
use nexus_llm_router.Prelude.{
  ◌≡◌, Result, ok, err, Exec, Error, Bool, true, false, Option, none, some,
}
use nexus_llm_router.Prelude.Action.{
  ◌>>=◌, raise_unless, modify, continue, pure, raise, gets, or_raise, lift, catch,
}

-- What holds of the answer and of the object, or of the object after an exception.
abbrev pub Outcome : {S A : Type 0} → (A → S → Type 0) → (S → Type 0) → Result A → S → Type 0
Outcome answered raised (ok a) s = answered a s
Outcome answered raised (err e) s = raised s

pub record Triple {S A : Type 0} (before : S → Type 0) (m : Exec S A) (answered : A → S → Type 0)
    (raised : S → Type 0) : Type 0 where
  pub after : (s : S) → before s → let (a, s') = m s in Outcome answered raised a s'

module _ {S A : Type 0} where
  Outcome-imp :
      (answered answered' : A → S → Type 0) (raised raised' : S → Type 0) (a : Result A) (s : S)
      → ((x : A) → answered x s → answered' x s)
      → (raised s → raised' s)
      → Outcome answered raised a s
      → Outcome answered' raised' a s
  Outcome-imp answered answered' raised raised' (ok x) s f g h = f x h
  Outcome-imp answered answered' raised raised' (err e) s f g h = g h

  pub Triple-imp :
      {before : S → Type 0} (answered answered' : A → S → Type 0) (raised raised' : S → Type 0)
      (m : Exec S A)
      → ((a : A) (s : S) → answered a s → answered' a s)
      → ((s : S) → raised s → raised' s)
      → Triple before m answered raised
      → Triple before m answered' raised'
  Triple-imp answered answered' raised raised' m f g t = record {
    after = λ s h.
        Outcome-imp answered answered' raised raised' (m s).0 (m s).1 (λ x. f x (m s).1) (g (m s).1)
          (t.after s h);
  }

module _ {S A B : Type 0} where
  continue-Outcome :
      (between : A → S → Type 0) (answered : B → S → Type 0) (raised : S → Type 0)
      (f : A → Exec S B)
      → ((a : A) → Triple (between a) (f a) answered raised)
      → (a : Result A) (s : S) → Outcome between raised a s
      → let (b, s') = continue a f s in Outcome answered raised b s'
  unfolding continue
  continue-Outcome between answered raised f next (ok a) s h = (next a).after s h
  continue-Outcome between answered raised f next (err e) s h = h

  pub Triple-bind :
      {before : S → Type 0} {answered : B → S → Type 0} {raised : S → Type 0}
      (between : A → S → Type 0) (m : Exec S A) (f : A → Exec S B)
      → Triple before m between raised
      → ((a : A) → Triple (between a) (f a) answered raised)
      → Triple before (m >>= f) answered raised
  unfolding ◌>>=◌
  Triple-bind between m f first next = record {
    after = λ s h. continue-Outcome between _ _ f next _ _ (first.after s h);
  }

  pub Triple-catch :
      {before : S → Type 0} {answered : B → S → Type 0} {raised : S → Type 0}
      (fine : A → S → Type 0) (bad : S → Type 0) (m : Exec S A) (f : Result A → Exec S B)
      → Triple before m fine bad
      → ((a : Result A) → Triple (Outcome fine bad a) (f a) answered raised)
      → Triple before (catch m f) answered raised
  unfolding catch
  Triple-catch fine bad m f first next = record {
    after = λ s h. (next (m s).0).after (m s).1 (first.after s h);
  }

module _ {S A : Type 0} {before : S → Type 0} {answered : A → S → Type 0}
    {raised : S → Type 0} where
  pub Triple-pure :
      (a : A) → ((s : S) → before s → answered a s) → Triple before (pure a) answered raised
  unfolding pure
  Triple-pure a h = record { after = h }

  pub Triple-raise :
      (e : Error) → ((s : S) → before s → raised s) → Triple before (raise e) answered raised
  unfolding raise
  Triple-raise e h = record { after = h }

  pub Triple-gets :
      (f : S → A) → ((s : S) → before s → answered (f s) s) → Triple before (gets f) answered raised
  unfolding gets
  Triple-gets f h = record { after = h }

  pub Triple-or_raise :
      (o : Option A) (e : Error)
      → ((a : A) (s : S) → before s → answered a s)
      → ((s : S) → before s → raised s)
      → Triple before (or_raise o e) answered raised
  unfolding or_raise pure raise
  Triple-or_raise none e h k = record { after = k }
  Triple-or_raise (some a) e h k = record { after = h a }

  pub Triple-lift :
      (a : Result A)
      → ((x : A) (s : S) → before s → answered x s)
      → ((s : S) → before s → raised s)
      → Triple before (lift a) answered raised
  unfolding lift
  Triple-lift (ok x) h k = record { after = h x }
  Triple-lift (err e) h k = record { after = k }

module _ {S : Type 0} {before : S → Type 0} {answered : Unit {0} → S → Type 0}
    {raised : S → Type 0} where
  pub Triple-modify :
      (f : S → S)
      → ((s : S) → before s → answered tt (f s))
      → Triple before (modify f) answered raised
  unfolding modify
  Triple-modify f h = record { after = h }

  pub Triple-raise_unless :
      (b : Bool) (e : Error)
      → ((s : S) → before s → answered tt s)
      → ((s : S) → before s → raised s)
      → Triple before (raise_unless b e) answered raised
  unfolding raise_unless
  Triple-raise_unless true e h k = record { after = h }
  Triple-raise_unless false e h k = record { after = k }

-- A lookup that finds its value.
pub Triple-bind-some :
    {S A B : Type 0} {before : S → Type 0} {answered : B → S → Type 0} {raised : S → Type 0}
    (o : Option A) (a : A) (e : Error) (f : A → Exec S B)
    → o ≡ some a
    → Triple before (f a) answered raised
    → Triple before (or_raise o e >>= f) answered raised
unfolding ◌>>=◌ continue or_raise pure
Triple-bind-some o a e f h t = record { after = λ s k. rw (h, or_raise) (t.after s k) }

-- What a body answers, whatever the actions before it do.
pub record Answers {S A : Type 0} (P : A → Type 0) (m : Exec S A) : Type 0 where
  pub answer : (s : S) → Outcome (λ a s'. P a) (λ s'. Unit {0}) (m s).0 (m s).1

module _ {S A B : Type 0} (P : B → Type 0) where
  continue-Answers :
      (f : A → Exec S B) (a : Result A) (s : S)
      → ((x : A) → Answers P (f x))
      → Outcome (λ b s'. P b) (λ s'. Unit {0}) (continue a f s).0 (continue a f s).1
  unfolding continue
  continue-Answers f (ok x) s h = (h x).answer s
  continue-Answers f (err e) s h = tt

  pub Answers-bind :
      (m : Exec S A) (f : A → Exec S B) → ((a : A) → Answers P (f a)) → Answers P (m >>= f)
  unfolding ◌>>=◌
  Answers-bind m f h = record { answer = λ s. continue-Answers f _ _ h }

pub Answers-pure : {S B : Type 0} (P : B → Type 0) (b : B) → P b → Answers {S = S} P (pure b)
unfolding pure
Answers-pure P b h = record { answer = λ s. h }
