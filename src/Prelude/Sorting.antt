-- ===== src/Prelude/Sorting.antt =====
-- `sorted` on numbers: a stable insertion sort, with what percentiles need of it.
use Prim.Native.Nat.{ℕ, zero, suc, ◌+◌, ◌≤◌, ◌<◌}
use mathlib.Core.Path.{◌≡◌, refl}
use mathlib.Core.List.{List, [], ◌∷◌}
use native.Mathlib.Omega.{arith}
use package.nexus_llm_router.Prelude.Tests.{leb, if◌then◌else◌, leb→le}
use package.nexus_llm_router.Prelude.Lists.{length}

unfoldable pub insort : ℕ → List ℕ → List ℕ
insort x [] = x ∷ []
insort x (y ∷ ys) = if leb x y then x ∷ y ∷ ys else y ∷ insort x ys

unfoldable pub sorted : List ℕ → List ℕ
unfolding insort
sorted [] = []
sorted (x ∷ xs) = insort x (sorted xs)

-- `xs[i]`, or `d` past the end
unfoldable pub get_or : List ℕ → ℕ → ℕ → ℕ
get_or [] i d = d
get_or (x ∷ xs) zero d = x
get_or (x ∷ xs) (suc i) d = get_or xs i d

abbrev pub LowerBound : ℕ → List ℕ → Type 0
LowerBound a [] = Unit {0}
LowerBound a (x ∷ xs) = (a ≤ x) × LowerBound a xs

abbrev pub IsSorted : List ℕ → Type 0
IsSorted [] = Unit {0}
IsSorted (x ∷ xs) = LowerBound x xs × IsSorted xs

LowerBound-weaken : (a b : ℕ) (xs : List ℕ) → a ≤ b → LowerBound b xs → LowerBound a xs
LowerBound-weaken a b [] h l = tt
LowerBound-weaken a b (x ∷ xs) h l = (omega arith, LowerBound-weaken a b xs h l.1)

LowerBound-insort : (a x : ℕ) (xs : List ℕ) → a ≤ x → LowerBound a xs → LowerBound a (insort x xs)
unfolding insort
LowerBound-insort a x [] h l = (h, tt)
LowerBound-insort a x (y ∷ ys) h l = ground (arith, LowerBound-insort a x ys h)

insort-IsSorted : (x : ℕ) (xs : List ℕ) → IsSorted xs → IsSorted (insort x xs)
unfolding insort
insort-IsSorted x [] s = (tt, tt)
insort-IsSorted x (y ∷ ys) s =
    ground
      (arith, leb→le x y, LowerBound-weaken x y ys, LowerBound-insort y x ys, insort-IsSorted x ys)

pub sorted-IsSorted : (xs : List ℕ) → IsSorted (sorted xs)
unfolding sorted
sorted-IsSorted [] = tt
sorted-IsSorted (x ∷ xs) = insort-IsSorted x (sorted xs) (sorted-IsSorted xs)

length-insort : (x : ℕ) (xs : List ℕ) → length (insort x xs) ≡ suc (length xs)
unfolding insort
length-insort x [] = refl
length-insort x (y ∷ ys) = ground (arith, length-insort x ys)

pub length-sorted : (xs : List ℕ) → length (sorted xs) ≡ length xs
unfolding sorted
length-sorted [] = refl
length-sorted (x ∷ xs) = ground (arith, length-insort x (sorted xs), length-sorted xs)

get_or-LowerBound :
    (a : ℕ) (xs : List ℕ) (i d : ℕ) → LowerBound a xs → i < length xs → a ≤ get_or xs i d
unfolding get_or
get_or-LowerBound a [] i d l h = absurd (omega arith)
get_or-LowerBound a (x ∷ xs) zero d l h = l.0
get_or-LowerBound a (x ∷ xs) (suc i) d l h = get_or-LowerBound a xs i d l.1 (omega arith)

-- In a sorted list a later position holds no smaller number.
pub get_or_mono :
    (xs : List ℕ) (i j d : ℕ) → IsSorted xs → i ≤ j → j < length xs → get_or xs i d ≤ get_or xs j d
unfolding get_or
get_or_mono [] i j d s h k = absurd (omega arith)
get_or_mono (x ∷ xs) zero zero d s h k = omega arith
get_or_mono (x ∷ xs) zero (suc j) d s h k = get_or-LowerBound x xs j d s.0 (omega arith)
get_or_mono (x ∷ xs) (suc i) zero d s h k = absurd (omega arith)
get_or_mono (x ∷ xs) (suc i) (suc j) d s h k = get_or_mono xs i j d s.1 (omega arith) (omega arith)

-- How often a number occurs.
unfoldable pub count : ℕ → List ℕ → ℕ
count a [] = 0
count a (x ∷ xs) = (if leb x a then if leb a x then 1 else 0 else 0) + count a xs

count-insort : (a x : ℕ) (xs : List ℕ) → count a (insort x xs) ≡ count a (x ∷ xs)
unfolding insort count
count-insort a x [] = refl
count-insort a x (y ∷ ys) = ground (arith, count-insort a x ys)

-- Sorting keeps every number as often as it occurs.
pub count-sorted : (a : ℕ) (xs : List ℕ) → count a (sorted xs) ≡ count a xs
unfolding sorted count
count-sorted a [] = refl
count-sorted a (x ∷ xs) = ground (arith, count-insort a x (sorted xs), count-sorted a xs)
