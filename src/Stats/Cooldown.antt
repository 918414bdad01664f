-- ===== src/Stats/Cooldown.antt =====
-- `ProviderRetryAfterCooldown` of router/strategies.py. A wait of `max(0.0, seconds)` is a number;
-- the source of the wait may be negative.
use nexus_llm_router.Prelude.{
  ℕ, ◌+◌, ◌-◌, ◌≡◌, String, Bool, false, Option, none, some, Result, ok, err, value_error, [], ltb,
  if◌then◌else◌, arith, str_eq, eq_iff,
}
use nexus_llm_router.Prelude.Int.{ℤ, pos, pos_part, ltb_ℤ}
use nexus_llm_router.Prelude.Dict
use nexus_llm_router.Prelude.Dict.{Dict, get-put, get-remove}

pub record ProviderRetryAfterCooldown : Type 0 where
  pub default_seconds : ℕ
  pub until : Dict ℕ

unfoldable pub init : ℤ → Result ProviderRetryAfterCooldown
init default_seconds =
    if ltb_ℤ default_seconds (pos 0)
    then err value_error
    else ok (record { default_seconds = pos_part default_seconds; until = [] })

-- `default_seconds if seconds is None else max(0.0, float(seconds))`
unfoldable pub wait_of : ℕ → Option ℤ → ℕ
wait_of default_seconds none = default_seconds
wait_of default_seconds (some seconds) = pos_part seconds

unfoldable pub set_cooldown :
    String → Option ℤ → ℕ → ProviderRetryAfterCooldown → ProviderRetryAfterCooldown
unfolding wait_of
set_cooldown provider seconds now s = record s {
  until = Dict.put s.until provider (now + wait_of s.default_seconds seconds);
}

unfoldable pub clear : String → ProviderRetryAfterCooldown → ProviderRetryAfterCooldown
clear provider s = record s { until = Dict.remove s.until provider }

unfoldable pub remaining_seconds : ProviderRetryAfterCooldown → String → ℕ → ℕ
remaining_seconds s provider now = elim (Dict.get s.until provider) [
  | none ↦ 0
  | some until ↦ until - now
]

unfoldable pub is_cooling_down : ProviderRetryAfterCooldown → String → ℕ → Bool
unfolding remaining_seconds
is_cooling_down s provider now = ltb 0 (remaining_seconds s provider now)

-- After `set_cooldown` at a time the provider cools down exactly until its wait has passed, a
-- negative wait counting as none; every other provider is as before.
pub is_cooling_down-set_cooldown :
    (s : ProviderRetryAfterCooldown) (p q : String) (seconds : Option ℤ) (t now : ℕ)
    → is_cooling_down (set_cooldown p seconds t s) q now ≡ (
        if str_eq p q
        then ltb now (t + wait_of s.default_seconds seconds)
        else is_cooling_down s q now)
unfolding is_cooling_down set_cooldown
is_cooling_down-set_cooldown s p q seconds t now =
    ground (arith, eq_iff p q, get-put s.until p q (t + wait_of s.default_seconds seconds))

-- After `clear` the provider does not cool down at any time; every other provider is as before.
pub is_cooling_down-clear :
    (s : ProviderRetryAfterCooldown) (p q : String) (now : ℕ)
    → is_cooling_down (clear p s) q now ≡ (if str_eq p q then false else is_cooling_down s q now)
unfolding is_cooling_down clear
is_cooling_down-clear s p q now = ground (arith, eq_iff p q, get-remove s.until p q)
