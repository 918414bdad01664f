-- ===== src/Prelude/Dict.antt =====
-- Python's `dict` with string keys, in insertion order: an assignment to a key that is there keeps
-- its place, one to a new key goes to the end.
use Prim.Native.String.{String}
use mathlib.Core.Logic.{inl, inr}
use mathlib.Core.Path.{◌≡◌, refl, sym, ap}
use mathlib.Core.Option.{Option, none, some}
use mathlib.Core.List.{List, [], ◌∷◌, map}
use native.Mathlib.Omega.{arith}
use text.Mathlib.Text.{◌==◌}
use text.Mathlib.TextEquality.{eq_iff}
use text.Mathlib.TextPositions.{eq_refl}
use package.nexus_llm_router.Prelude.Tests.{if◌then◌else◌, Bool-cases, Option-cases}

abbrev pub Dict {ℓ} : Type ℓ → Type ℓ
Dict V = List (String × V)

module _ {ℓ} {V : Type ℓ} where
  -- `d.get(k)`
  unfoldable pub get : Dict V → String → Option V
  get [] k = none
  get ((j, v) ∷ d) k = if j == k then some v else get d k

  -- `d.get(k, default)`
  unfoldable pub get_or : Dict V → String → V → V
  get_or [] k w = w
  get_or ((j, v) ∷ d) k w = if j == k then v else get_or d k w

  -- `d[k] = v`
  unfoldable pub put : Dict V → String → V → Dict V
  put [] k v = (k, v) ∷ []
  put ((j, w) ∷ d) k v = if j == k then (j, v) ∷ d else (j, w) ∷ put d k v

  -- `d.pop(k, None)`, `del d[k]`: the keys of a dict are distinct, and all entries of `k` go
  unfoldable pub remove : Dict V → String → Dict V
  remove [] k = []
  remove ((j, w) ∷ d) k = let rest = remove d k in if j == k then rest else (j, w) ∷ rest

  -- `d.setdefault(k, v)`: the value, and the dict that has the key
  unfoldable pub setdefault : Dict V → String → V → V × Dict V
  setdefault d k v = elim (get d k) [ none ↦ (v, put d k v) | some w ↦ (w, d) ]

  abbrev pub keys : Dict V → List String
  keys = map (λ e. e.0)

  pub get-put :
      (d : Dict V) (k j : String) (v : V) → get (put d k v) j ≡ (if k == j then some v else get d j)
  unfolding get put
  get-put [] k j v = refl
  get-put ((i, w) ∷ d) k j v = ground (arith, eq_iff i k, eq_iff i j, eq_iff k j, get-put d k j v)

  pub get-remove :
      (d : Dict V) (k j : String) → get (remove d k) j ≡ (if k == j then none else get d j)
  unfolding get remove
  get-remove [] k j = ground arith
  get-remove ((i, w) ∷ d) k j = ground (arith, eq_iff i k, eq_iff i j, eq_iff k j, get-remove d k j)

  -- A second assignment to a key replaces the first.
  pub put-put : (d : Dict V) (k : String) (v w : V) → put (put d k v) k w ≡ put d k w
  unfolding put
  put-put [] k v w = rw (eq_refl k) refl
  put-put ((i, u) ∷ d) k v w = elim (Bool-cases (i == k)) [
    | inl same ↦ rw (same, same) refl
    | inr other ↦ rw (other, other) (ap (λ (e : Dict V). (i, u) ∷ e) (put-put d k v w))
  ]

  pub get_or-put :
      (d : Dict V) (k j : String) (v w : V)
      → get_or (put d k v) j w ≡ (if k == j then v else get_or d j w)
  unfolding get_or put
  get_or-put [] k j v w = refl
  get_or-put ((i, u) ∷ d) k j v w =
      ground (arith, eq_iff i k, eq_iff i j, eq_iff k j, get_or-put d k j v w)

  pub get_or-remove :
      (d : Dict V) (k j : String) (w : V)
      → get_or (remove d k) j w ≡ (if k == j then w else get_or d j w)
  unfolding get_or remove
  get_or-remove [] k j w = ground arith
  get_or-remove ((i, u) ∷ d) k j w =
      ground (arith, eq_iff i k, eq_iff i j, eq_iff k j, get_or-remove d k j w)

  pub get-eq-none→get_or : (d : Dict V) (k : String) (w : V) → get d k ≡ none → get_or d k w ≡ w
  unfolding get get_or
  get-eq-none→get_or [] k w h = refl
  get-eq-none→get_or ((i, u) ∷ d) k w h = ground (arith, get-eq-none→get_or d k w)

  pub get-eq-some→get_or : (d : Dict V) (k : String) (v w : V) → get d k ≡ some v → get_or d k w ≡ v
  unfolding get get_or
  get-eq-some→get_or [] k v w h = cc
  get-eq-some→get_or ((i, u) ∷ d) k v w h = ground (arith, get-eq-some→get_or d k v w)

module _ {ℓ} {V : Type ℓ} (d : Dict V) (k : String) (v : V) where
  -- `setdefault` returns what `d.get(k, v)` returns,
  pub setdefault-get_or : (setdefault d k v).0 ≡ get_or d k v
  unfolding setdefault
  setdefault-get_or = elim (Option-cases (get d k)) [
    | inl e ↦ rw (e, setdefault) (sym (get-eq-none→get_or d k v e))
    | inr (w, e) ↦ rw (e, setdefault) (sym (get-eq-some→get_or d k w v e))
  ]

  -- and changes no read that has the same default.
  pub get_or-setdefault : (j : String) → get_or (setdefault d k v).1 j v ≡ get_or d j v
  unfolding setdefault
  get_or-setdefault j = elim (Option-cases (get d k)) [
    | inl e ↦
        rw (e, setdefault)
          (ground (arith, get_or-put d k j v v, get-eq-none→get_or d k v e, eq_iff k j))
    | inr (w, e) ↦ rw (e, setdefault)
  ]

  -- An assignment after `setdefault`: only the value of the key is another.
  pub get-put-setdefault :
      (w : V) (j : String)
      → get (put (setdefault d k v).1 k w) j ≡ (if k == j then some w else get d j)
  unfolding setdefault
  get-put-setdefault w j = elim (Option-cases (get d k)) [
    | inl e ↦
        rw (e, setdefault) (ground (arith, get-put (put d k v) k j w, get-put d k j v, eq_iff k j))
    | inr (u, e) ↦ rw (e, setdefault) (get-put d k j w)
  ]

  pub get_or-put-setdefault :
      (w u : V) (j : String)
      → get_or (put (setdefault d k v).1 k w) j u ≡ (if k == j then w else get_or d j u)
  unfolding setdefault
  get_or-put-setdefault w u j = elim (Option-cases (get d k)) [
    | inl e ↦
        rw (e, setdefault)
          (ground (arith, get_or-put (put d k v) k j w u, get_or-put d k j v u, eq_iff k j))
    | inr (x, e) ↦ rw (e, setdefault) (get_or-put d k j w u)
  ]

pub ruleset dict_laws = (get-put, get-remove, get_or-put, get_or-remove, eq_refl)
