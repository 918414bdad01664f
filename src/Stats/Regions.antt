-- ===== src/Stats/Regions.antt =====
-- `RegionFailoverHysteresisStats` of router/strategies.py.
use nexus_llm_router.Prelude.{ℕ, ◌+◌, String, Option, []}
use nexus_llm_router.Prelude.Text.{strip, lower}
use nexus_llm_router.Prelude.Dict
use nexus_llm_router.Prelude.Dict.{Dict, get_or-put}

pub record RegionFailoverHysteresisStats : Type 0 where
  pub recovery_streaks : Dict ℕ
  pub active_failover : Dict String

abbrev pub init : RegionFailoverHysteresisStats
init = record { recovery_streaks = []; active_failover = [] }

-- `region.strip().lower()`
unfoldable pub normalized : String → String
unfolding strip lower
normalized region = lower (strip region)

unfoldable pub record_success :
    String → RegionFailoverHysteresisStats → RegionFailoverHysteresisStats
unfolding normalized
record_success region s =
    let name = normalized region in
    record s {
      recovery_streaks =
          Dict.put s.recovery_streaks name (Dict.get_or s.recovery_streaks name 0 + 1);
    }

unfoldable pub record_failure :
    String → RegionFailoverHysteresisStats → RegionFailoverHysteresisStats
unfolding normalized
record_failure region s = record s {
  recovery_streaks = Dict.put s.recovery_streaks (normalized region) 0;
}

unfoldable pub recovery_streak : RegionFailoverHysteresisStats → String → ℕ
unfolding normalized
recovery_streak s region = Dict.get_or s.recovery_streaks (normalized region) 0

unfoldable pub active_failover_region : RegionFailoverHysteresisStats → String → Option String
active_failover_region s session_id = Dict.get s.active_failover session_id

unfoldable pub set_failover :
    String → String → RegionFailoverHysteresisStats → RegionFailoverHysteresisStats
unfolding normalized
set_failover session_id region s = record s {
  active_failover = Dict.put s.active_failover session_id (normalized region);
}

unfoldable pub clear_failover :
    String → RegionFailoverHysteresisStats → RegionFailoverHysteresisStats
clear_failover session_id s = record s {
  active_failover = Dict.remove s.active_failover session_id;
}
