-- ===== src/Prelude/Choice.antt =====
-- Choosing and ordering by a key: `min`, `max` and `sorted` with a key function. A key is given by the
-- strict order that it makes; a tuple of keys is `then_by`.
use Prim.Native.Nat.{ℕ, zero, suc, ◌*◌, ◌≤◌}
use mathlib.Core.Path.{◌≡◌, refl}
use mathlib.Core.Logic.{inl, inr}
use mathlib.Core.Bool.{Bool, true, false}
use mathlib.Core.List.{List, [], ◌∷◌}
use native.Mathlib.Omega.{arith}
use package.nexus_llm_router.Prelude.Tests.{ltb, if◌then◌else◌, Bool-cases}
use package.nexus_llm_router.Prelude.Lists.{length}
use Prim.Native.String.{String}
use package.nexus_llm_router.Prelude.Text.{text_ltb, text_ltb_asym, text_ltb_cotrans}
use package.nexus_llm_router.Prelude.Ratio.{Ratio, ltb_ratio}
use native.Mathlib.Nat.{mul-le-mul_right, mul_right_comm, le_of_mul-le-mul_right, le_trans}

-- Whether the first element comes strictly before the second.
abbrev pub Before : Type 0 → Type 0
Before A = A → A → Bool

module _ {A : Type 0} where
  -- `[x for x in xs if test(x)]`
  unfoldable pub keep : (A → Bool) → List A → List A
  keep test [] = []
  keep test (x ∷ xs) = let rest = keep test xs in if test x then x ∷ rest else rest

  -- `xs[:n]`
  unfoldable pub take : ℕ → List A → List A
  take zero xs = []
  take (suc n) [] = []
  take (suc n) (x ∷ xs) = x ∷ take n xs

  -- `min` of a list with a head: the first element that no other comes before.
  unfoldable pub first_by : Before A → A → List A → A
  first_by before best [] = best
  first_by before best (x ∷ xs) = first_by before (if before x best then x else best) xs

  -- `sorted`, which keeps equal elements in their order.
  unfoldable pub insert_by : Before A → A → List A → List A
  insert_by before x [] = x ∷ []
  insert_by before x (y ∷ ys) = if before y x then y ∷ insert_by before x ys else x ∷ y ∷ ys

  unfoldable pub sort_by : Before A → List A → List A
  unfolding insert_by
  sort_by before [] = []
  sort_by before (x ∷ xs) = insert_by before x (sort_by before xs)

  unfoldable pub then_by : Before A → Before A → Before A
  then_by first second a b = if first a b then true else if first b a then false else second a b

  abbrev pub All : (A → Type 0) → List A → Type 0
  All P [] = Unit {0}
  All P (x ∷ xs) = P x × All P xs

  pub All-keep : (P : A → Type 0) (test : A → Bool) (xs : List A) → All P xs → All P (keep test xs)
  unfolding keep
  All-keep P test [] h = tt
  All-keep P test (x ∷ xs) h = elim (Bool-cases (test x)) [
    | inl kept ↦ rw kept (h.0, All-keep P test xs h.1)
    | inr dropped ↦ rw dropped (All-keep P test xs h.1)
  ]

  -- What is kept passes the test.
  pub All-keep-test : (test : A → Bool) (xs : List A) → All (λ x. test x ≡ true) (keep test xs)
  unfolding keep
  All-keep-test test [] = tt
  All-keep-test test (x ∷ xs) = elim (Bool-cases (test x)) [
    | inl kept ↦ rw kept (kept, All-keep-test test xs)
    | inr dropped ↦ rw dropped (All-keep-test test xs)
  ]

  pub All-imp : (P Q : A → Type 0) (xs : List A) → ((a : A) → P a → Q a) → All P xs → All Q xs
  All-imp P Q [] f h = tt
  All-imp P Q (x ∷ xs) f h = (f x h.0, All-imp P Q xs f h.1)

  pub All-both : (P Q : A → Type 0) (xs : List A) → All P xs → All Q xs → All (λ a. P a × Q a) xs
  All-both P Q [] h k = tt
  All-both P Q (x ∷ xs) h k = ((h.0, k.0), All-both P Q xs h.1 k.1)

  pub All-take : (P : A → Type 0) (n : ℕ) (xs : List A) → All P xs → All P (take n xs)
  unfolding take
  All-take P zero xs h = tt
  All-take P (suc n) [] h = tt
  All-take P (suc n) (x ∷ xs) h = (h.0, All-take P n xs h.1)

  pub length-take-le : (n : ℕ) (xs : List A) → length (take n xs) ≤ n
  unfolding take
  length-take-le zero xs = omega arith
  length-take-le (suc n) [] = omega arith
  length-take-le (suc n) (x ∷ xs) = omega (arith, length-take-le n xs)

  pub All-insert_by :
      (P : A → Type 0) (before : Before A) (x : A) (ys : List A)
      → P x
      → All P ys
      → All P (insert_by before x ys)
  unfolding insert_by
  All-insert_by P before x [] p h = (p, tt)
  All-insert_by P before x (y ∷ ys) p h = elim (Bool-cases (before y x)) [
    | inl lower ↦ rw lower (h.0, All-insert_by P before x ys p h.1)
    | inr stays ↦ rw stays (p, h)
  ]

  pub All-sort_by :
      (P : A → Type 0) (before : Before A) (xs : List A) → All P xs → All P (sort_by before xs)
  unfolding sort_by
  All-sort_by P before [] h = tt
  All-sort_by P before (x ∷ xs) h =
      All-insert_by P before x (sort_by before xs) h.0 (All-sort_by P before xs h.1)

  pub first_by-All :
      (P : A → Type 0) (before : Before A) (best : A) (xs : List A)
      → P best
      → All P xs
      → P (first_by before best xs)
  unfolding first_by
  first_by-All P before best [] p h = p
  first_by-All P before best (x ∷ xs) p h = elim (Bool-cases (before x best)) [
    | inl better ↦ rw better (first_by-All P before x xs h.0 h.1)
    | inr worse ↦ rw worse (first_by-All P before best xs p h.1)
  ]

-- The laws of the order that a key makes, on the elements that satisfy `P`.
pub record IsOrder {A : Type 0} (P : A → Type 0) (before : Before A) : Type 0 where
  pub asym : (a b : A) → P a → P b → before a b ≡ true → before b a ≡ false
  pub cotrans :
      (a b c : A) → P a → P b → P c → before b a ≡ false → before c b ≡ false → before c a ≡ false

module _ {A : Type 0} (P : A → Type 0) where
  pub IsOrder-then_by :
      (first second : Before A)
      → IsOrder P first
      → IsOrder P second
      → IsOrder P (then_by first second)
  unfolding then_by
  IsOrder-then_by first second f s = record {
    asym = λ a b p q h. ground (arith, h, f.asym a b p q, s.asym a b p q);
    cotrans = λ a b c p q r h k. ground (
      arith,
      h,
      k,
      f.cotrans a b c p q r,
      f.cotrans b c a q r p,
      f.cotrans c a b r p q,
      s.cotrans a b c p q r,
    );
  }

  -- The first by an order has no element before it.
  pub first_by-IsFirst :
      (before : Before A)
      → IsOrder P before
      → (best : A) (xs : List A) → P best
      → All P xs
      → (before best (first_by before best xs) ≡ false)
        × All (λ x. before x (first_by before best xs) ≡ false) xs
  unfolding first_by
  first_by-IsFirst before o best [] p h = (ground (arith, o.asym best best p p), tt)
  first_by-IsFirst before o best (x ∷ xs) p h =
      step (before x best) refl (λ b q. first_by-IsFirst before o b xs q h.1)
    where
      step :
          (t : Bool)
          → before x best ≡ t
          → ((b : A)
              → P b
              → (before b (first_by before b xs) ≡ false)
                × All (λ y. before y (first_by before b xs) ≡ false) xs)
          → (before best (first_by before (if t then x else best) xs) ≡ false)
            × ((before x (first_by before (if t then x else best) xs) ≡ false)
                × All (λ y. before y (first_by before (if t then x else best) xs) ≡ false) xs)
      step true better rest =
          let r = first_by before x xs in
          let ih = rest x h.0 in
          let q = first_by-All P before x xs h.0 h.1 in
          (o.cotrans r x best q h.0 p ih.0 (o.asym x best h.0 p better), (ih.0, ih.1))
      step false worse rest =
          let r = first_by before best xs in
          let ih = rest best p in
          let q = first_by-All P before best xs p h.1 in
          (ih.0, (o.cotrans r best x q p h.0 ih.0 worse, ih.1))

cross : (an ad bn bd cn cd : ℕ) → 1 ≤ bd → an * bd ≤ bn * ad → bn * cd ≤ cn * bd → an * cd ≤ cn * ad
cross an ad bn bd cn cd h k l =
    le_of_mul-le-mul_right {k = bd}
      (rw (mul_right_comm an cd bd, mul_right_comm cn ad bd)
        (le_trans (mul-le-mul_right cd k) (rw (mul_right_comm bn ad cd) (mul-le-mul_right ad l))))
      h

not_less :
    (a b c : Ratio)
    → 1 ≤ b.den
    → ltb_ratio b a ≡ false
    → ltb_ratio c b ≡ false
    → ltb_ratio c a ≡ false
not_less a b c h k l = ground (arith, cross a.num a.den b.num b.den c.num c.den)

-- Keys that are numbers, fractions and flags.
module _ {A : Type 0} where
  unfoldable pub by : (A → ℕ) → Before A
  by key a b = ltb (key a) (key b)

  unfoldable pub by_ratio : (A → Ratio) → Before A
  by_ratio key a b = ltb_ratio (key a) (key b)

  -- `False` comes before `True`.
  unfoldable pub by_flag : (A → Bool) → Before A
  by_flag key a b = if key a then false else key b

  unfoldable pub by_text : (A → String) → Before A
  by_text key a b = text_ltb (key a) (key b)

  -- A key with a minus, and `max`.
  unfoldable pub down : Before A → Before A
  down before a b = before b a

  pub IsOrder-by : (P : A → Type 0) (key : A → ℕ) → IsOrder P (by key)
  unfolding by
  IsOrder-by P key = record {
    asym = λ a b p q h. ground (arith, h);
    cotrans = λ a b c p q r h k. ground (arith, h, k);
  }

  pub IsOrder-by_flag : (P : A → Type 0) (key : A → Bool) → IsOrder P (by_flag key)
  unfolding by_flag
  IsOrder-by_flag P key = record {
    asym = λ a b p q h. ground (arith, h);
    cotrans = λ a b c p q r h k. ground (arith, h, k);
  }

  pub IsOrder-by_text : (P : A → Type 0) (key : A → String) → IsOrder P (by_text key)
  unfolding by_text
  IsOrder-by_text P key = record {
    asym = λ a b p q h. text_ltb_asym (key a) (key b) h;
    cotrans = λ a b c p q r h k. text_ltb_cotrans (key a) (key b) (key c) h k;
  }

  -- Fractions are ordered where no denominator is 0.
  pub IsOrder-by_ratio :
      (P : A → Type 0) (key : A → Ratio)
      → ((a : A) → P a → 1 ≤ (key a).den)
      → IsOrder P (by_ratio key)
  unfolding by_ratio
  IsOrder-by_ratio P key positive = record {
    asym = λ a b p q h. ground (arith, h);
    cotrans = λ a b c p q r h k. not_less (key a) (key b) (key c) (positive b q) h k;
  }

  pub IsOrder-down :
      (P : A → Type 0) (before : Before A) → IsOrder P before → IsOrder P (down before)
  unfolding down
  IsOrder-down P before o = record {
    asym = λ a b p q h. o.asym b a q p h;
    cotrans = λ a b c p q r h k. o.cotrans c b a r q p k h;
  }
