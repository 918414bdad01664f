-- ===== src/Prelude/Lists.antt =====
-- Lists measured by native numbers, under the library's names, and bounded windows.
use Prim.Native.String.{String}
use text.Mathlib.Text.{◌==◌ as str_eq}
use Prim.Native.Nat.{ℕ, zero, suc, ◌+◌, ◌-◌, ◌≤◌}
use mathlib.Core.Path.{◌≡◌}
use mathlib.Core.Bool.{Bool, true, false}
use mathlib.Core.List.{List, [], ◌∷◌, ◌++◌}
use native.Mathlib.Omega.{arith}
use package.nexus_llm_router.Prelude.Tests.{ltb, if◌then◌else◌}

module _ {ℓ} {A : Type ℓ} where
  abbrev pub length : List A → ℕ
  length [] = 0
  length (x ∷ xs) = suc (length xs)

  abbrev pub drop : ℕ → List A → List A
  drop zero xs = xs
  drop (suc n) [] = []
  drop (suc n) (x ∷ xs) = drop n xs

  pub length-append : (xs ys : List A) → length (xs ++ ys) ≡ length xs + length ys
  length-append [] ys = omega arith
  length-append (x ∷ xs) ys = omega (arith, length-append xs ys)

  pub length-drop : (n : ℕ) (xs : List A) → length (drop n xs) ≡ length xs - n
  length-drop zero xs = omega arith
  length-drop (suc n) [] = omega arith
  length-drop (suc n) (x ∷ xs) = omega (arith, length-drop n xs)

  -- `xs.append(x)`, then `del xs[0]` when more than `cap` are left.
  unfoldable pub push_capped : ℕ → A → List A → List A
  push_capped cap x xs = let ys = xs ++ x ∷ [] in if ltb cap (length ys) then drop 1 ys else ys

  pub length-push_capped :
      (cap : ℕ) (x : A) (xs : List A) → length xs ≤ cap → length (push_capped cap x xs) ≤ cap
  unfolding push_capped
  length-push_capped cap x xs h =
      ground (arith, length-append xs (x ∷ []), length-drop 1 (xs ++ x ∷ []))

-- The number of entries that are `true`: `sum(1 for ok in window if ok)`.
unfoldable pub count_true : List Bool → ℕ
count_true [] = 0
count_true (true ∷ xs) = suc (count_true xs)
count_true (false ∷ xs) = count_true xs

pub count_true-le : (xs : List Bool) → count_true xs ≤ length xs
unfolding count_true
count_true-le [] = omega arith
count_true-le (true ∷ xs) = omega (arith, count_true-le xs)
count_true-le (false ∷ xs) = omega (arith, count_true-le xs)

-- How often a name occurs.
unfoldable pub occurs : String → List String → ℕ
occurs x [] = 0
occurs x (y ∷ ys) = (if str_eq y x then 1 else 0) + occurs x ys

pub occurs-append :
    (x : String) (ys zs : List String) → occurs x (ys ++ zs) ≡ occurs x ys + occurs x zs
unfolding occurs
occurs-append x [] zs = omega arith
occurs-append x (y ∷ ys) zs = omega (arith, occurs-append x ys zs)
