-- ===== src/Stats/Inflight.antt =====
-- `InflightStats` of router/strategies.py: in-flight counters, by provider and by tenant and provider.
use Prim.Native.String.{◌++◌}
use nexus_llm_router.Prelude.{ℕ, ◌+◌, ◌-◌, ◌≡◌, String, leb, if◌then◌else◌, arith, str_eq, eq_iff}
use nexus_llm_router.Prelude.Dict
use nexus_llm_router.Prelude.Dict.{Dict, get_or-put, get_or-remove}

abbrev pub InflightStats : Type 0
InflightStats = Dict ℕ

unfoldable pub load_score : InflightStats → String → ℕ
load_score s provider = Dict.get_or s provider 0

unfoldable pub begin : String → InflightStats → InflightStats
begin provider s = Dict.put s provider (Dict.get_or s provider 0 + 1)

unfoldable pub finish : String → InflightStats → InflightStats
finish provider s =
    let current = Dict.get_or s provider 0 in
    if leb current 1 then Dict.remove s provider else Dict.put s provider (current - 1)

unfoldable pub tenant_provider_key : String → String → String
tenant_provider_key tenant_key provider = "tenant:" ++ tenant_key ++ "|provider:" ++ provider

unfoldable pub begin_for_tenant : String → String → InflightStats → InflightStats
begin_for_tenant tenant_key provider = begin (tenant_provider_key tenant_key provider)

unfoldable pub finish_for_tenant : String → String → InflightStats → InflightStats
finish_for_tenant tenant_key provider = finish (tenant_provider_key tenant_key provider)

unfoldable pub tenant_load_score : InflightStats → String → String → ℕ
tenant_load_score s tenant_key provider = load_score s (tenant_provider_key tenant_key provider)

pub load_score-begin :
    (s : InflightStats) (p q : String)
    → load_score (begin p s) q ≡ (if str_eq p q then load_score s p + 1 else load_score s q)
unfolding load_score begin
load_score-begin s p q = get_or-put s p q (Dict.get_or s p 0 + 1) 0

pub load_score-finish :
    (s : InflightStats) (p q : String)
    → load_score (finish p s) q ≡ (if str_eq p q then load_score s p - 1 else load_score s q)
unfolding load_score finish
load_score-finish s p q =
    ground (arith, get_or-put s p q (Dict.get_or s p 0 - 1) 0, get_or-remove s p q 0, eq_iff p q)

-- What a provider call does to the counters around what happens while it is awaited.
unfoldable pub around :
    String → String → (InflightStats → InflightStats) → InflightStats → InflightStats
around tenant provider meanwhile s = finish provider (
    finish_for_tenant tenant provider
      (meanwhile (begin_for_tenant tenant provider (begin provider s))))

-- If what happens while the call is awaited leaves every load as it was, the call leaves none in
-- flight: the counters are what they were before it, for every key.
pub load_score-around :
    (tenant provider : String) (meanwhile : InflightStats → InflightStats) (s : InflightStats)
    → ((t : InflightStats) (q : String) → load_score (meanwhile t) q ≡ load_score t q)
    → (q : String) → load_score (around tenant provider meanwhile s) q ≡ load_score s q
unfolding around begin_for_tenant finish_for_tenant
load_score-around tenant provider meanwhile s still q =
    let t = tenant_provider_key tenant provider in
    let s1 = begin provider s in
    let s2 = begin t s1 in
    let s3 = meanwhile s2 in
    ground (
      arith,
      eq_iff provider q,
      eq_iff t q,
      eq_iff provider t,
      eq_iff t provider,
      load_score-begin s provider q,
      load_score-begin s provider provider,
      load_score-begin s provider t,
      load_score-begin s1 t q,
      load_score-begin s1 t provider,
      load_score-begin s1 t t,
      still s2 q,
      still s2 t,
      still s2 provider,
      load_score-finish s3 t q,
      load_score-finish s3 t provider,
      load_score-finish (finish t s3) provider q,
    )
