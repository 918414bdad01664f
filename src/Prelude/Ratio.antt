-- ===== src/Prelude/Ratio.antt =====
-- Non-negative fractions, for rates, weights and scores. Orders are by cross-multiplication; a
-- fraction is never taken with a denominator of 0.
use Prim.Native.Nat.{ℕ, ◌+◌, ◌*◌, ◌≤◌}
use mathlib.Core.Bool.{Bool}
use package.nexus_llm_router.Prelude.Tests.{ltb, leb, if◌then◌else◌}

pub record Ratio : Type 0 where
  pub num : ℕ
  pub den : ℕ

abbrev pub ratio : ℕ → ℕ → Ratio
ratio n d = record { num = n; den = d }

abbrev pub one : Ratio
one = ratio 1 1

abbrev pub zero_ratio : Ratio
zero_ratio = ratio 0 1

abbrev pub ltb_ratio : Ratio → Ratio → Bool
ltb_ratio a b = ltb (a.num * b.den) (b.num * a.den)

abbrev pub leb_ratio : Ratio → Ratio → Bool
leb_ratio a b = leb (a.num * b.den) (b.num * a.den)

abbrev pub LeRatio : Ratio → Ratio → Type 0
LeRatio a b = a.num * b.den ≤ b.num * a.den

abbrev pub add_ratio : Ratio → Ratio → Ratio
add_ratio a b = ratio (a.num * b.den + b.num * a.den) (a.den * b.den)

abbrev pub mul_ratio : Ratio → Ratio → Ratio
mul_ratio a b = ratio (a.num * b.num) (a.den * b.den)

abbrev pub min_ratio : Ratio → Ratio → Ratio
min_ratio a b = if ltb_ratio b a then b else a
