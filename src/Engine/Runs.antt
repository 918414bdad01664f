-- ===== src/Engine/Runs.antt =====
-- How an action that does not raise runs.
use nexus_llm_router.Prelude.{◌≡◌, Bool, true, false, Error, Exec, ok, err}
use nexus_llm_router.Prelude.Action.{◌>>=◌, continue, raise_unless, zoom}

module _ {S A B : Type 0} where
  pub run_bind :
      (m : Exec S A) (f : A → Exec S B) (s s' : S) (a : A) → m s ≡ (ok a, s') → (m >>= f) s ≡ f a s'
  unfolding ◌>>=◌ continue
  run_bind m f s s' a h = rw h

pub run_raise_unless :
    {S : Type 0} (b : Bool) (e : Error) (s : S) → b ≡ true → raise_unless b e s ≡ (ok tt, s)
unfolding raise_unless
run_raise_unless b e s h = rw h

pub run_stopped :
    {S A : Type 0} (b : Bool) (e : Error) (k : Unit {0} → Exec S A) (s : S)
    → b ≡ false
    → (raise_unless b e >>= k) s ≡ (err e, s)
unfolding raise_unless ◌>>=◌ continue
run_stopped b e k s h = rw h

pub run_zoom :
    {S T A : Type 0} (part : S → T) (replace : T → S → S) (m : Exec T A) (s : S) (t : T) (a : A)
    → m (part s) ≡ (ok a, t)
    → zoom part replace m s ≡ (ok a, replace t s)
unfolding zoom
run_zoom part replace m s t a h = rw h
