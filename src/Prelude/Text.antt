-- ===== src/Prelude/Text.antt =====
-- Python's `str.strip` and `str.lower`, on the ASCII characters; others are left as they are.
use Prim.Native.Nat.{ℕ, zero, suc, ◌-◌, ◌/◌, ◌%◌}
use Prim.Native.Char.{Char, code}
use Prim.Native.String.{String, [], ◌∷◌, char_at}
use mathlib.Core.Path.{◌≡◌, refl}
use mathlib.Core.Bool.{Bool, true, false, ◌&&◌, ◌||◌}
use native.Mathlib.Omega.{arith}
use package.nexus_llm_router.Prelude.Tests.{ltb, leb, ◌==◌, if◌then◌else◌}

is_space : Char → Bool
is_space c = let n = code c in (leb 9 n && leb n 13) || (leb 28 n && leb n 32)

unfoldable pub strip_left : String → String
unfolding is_space
strip_left [] = []
strip_left (c ∷ s) = let rest = strip_left s in if is_space c then rest else c ∷ s

-- Drops the spaces at the end: a character is put back unless it is a space with nothing behind it.
unfoldable pub strip_right : String → String
unfolding is_space
strip_right [] = []
strip_right (c ∷ s) =
    let rest = strip_right s in
    elim rest [ [] ↦ if is_space c then [] else c ∷ [] | d ∷ t ↦ c ∷ d ∷ t ]

unfoldable pub strip : String → String
unfolding strip_left strip_right
strip s = strip_right (strip_left s)

lower_char : Char → Char
lower_char c =
    let n = code c in
    if leb b'A' n && leb n b'Z' then char_at "abcdefghijklmnopqrstuvwxyz" (n - b'A') else c

unfoldable pub lower : String → String
unfolding lower_char
lower [] = []
lower (c ∷ s) = lower_char c ∷ lower s

-- `str(n)`, with one step of fuel for each digit; `n + 1` steps are enough for `n`.
decimal_from : ℕ → ℕ → String → String
decimal_from zero n acc = acc
decimal_from (suc fuel) n acc =
    let acc' = char_at "0123456789" (n % 10) ∷ acc in
    let rest = decimal_from fuel (n / 10) acc' in if n / 10 == 0 then acc' else rest

unfoldable pub decimal : ℕ → String
unfolding decimal_from
decimal n = decimal_from (suc n) n ""

-- `s < t`, by the code points.
unfoldable pub text_ltb : String → String → Bool
text_ltb [] [] = false
text_ltb [] (d ∷ t) = true
text_ltb (c ∷ s) [] = false
text_ltb (c ∷ s) (d ∷ t) =
    let rest = text_ltb s t in
    if ltb (code c) (code d) then true else if ltb (code d) (code c) then false else rest

pub text_ltb_asym : (s t : String) → text_ltb s t ≡ true → text_ltb t s ≡ false
unfolding text_ltb
text_ltb_asym [] [] h = cc
text_ltb_asym [] (d ∷ t) h = refl
text_ltb_asym (c ∷ s) [] h = cc
text_ltb_asym (c ∷ s) (d ∷ t) h = ground (arith, text_ltb_asym s t)

pub text_ltb_cotrans :
    (s t u : String) → text_ltb t s ≡ false → text_ltb u t ≡ false → text_ltb u s ≡ false
unfolding text_ltb
text_ltb_cotrans [] t [] h k = refl
text_ltb_cotrans [] [] (e ∷ u) h k = refl
text_ltb_cotrans [] (d ∷ t) (e ∷ u) h k = refl
text_ltb_cotrans (c ∷ s) [] u h k = cc
text_ltb_cotrans (c ∷ s) (d ∷ t) [] h k = cc
text_ltb_cotrans (c ∷ s) (d ∷ t) (e ∷ u) h k = ground (arith, h, k, text_ltb_cotrans s t u)
