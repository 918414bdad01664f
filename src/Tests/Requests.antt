-- ===== src/Tests/Requests.antt =====
-- Whole requests: a router, a catalog of two models and a world in which the first provider fails.
use nexus_llm_router.Prelude.{
  ℕ, zero, suc, ◌≡◌, ◌⊎◌, refl, String, Bool, true, false, Option, some, none, List, [], ◌∷◌, ok,
  err, str_eq, state_transition, rate_limit_exceeded, if◌then◌else◌, occurs,
}
use nexus_llm_router.Prelude.Int.{pos, negsuc}
use nexus_llm_router.Prelude.Ratio.{ratio}
use nexus_llm_router.Prelude.Dict
use nexus_llm_router.Lifecycle.{routed}
use nexus_llm_router.Schemas.{
  RouterRequest, TaskSignals, ModelCandidate, RoutingDecision, ProviderResponse, general, realtime,
  stop, estimate_cost, valid_counts,
}
use nexus_llm_router.Prelude.Action.{◌>>=◌, continue, zoom}
use nexus_llm_router.Scoreboard
use nexus_llm_router.Scoreboard.{rank}
use nexus_llm_router.Breaker
use nexus_llm_router.Limiter
use nexus_llm_router.Budget
use nexus_llm_router.Stats.Inflight.{load_score}
use nexus_llm_router.Stats.Outcomes.Success
use nexus_llm_router.Stats.Regions
use nexus_llm_router.Engine.State.{NexusRouter, Setup, World, Strategy, Outcome, replied, raised}
use nexus_llm_router.Engine.Request.{guardrails}
use nexus_llm_router.Engine.Order.{order_attempts, group_chain, group_model, gather}
use nexus_llm_router.Engine.Order.Known.{Known, order_attempts-Known}
use nexus_llm_router.Engine.Order.Counts.{order_attempts-occurs}
use nexus_llm_router.Engine.Complete.{Job, attempt_all, complete}
use nexus_llm_router.Engine.Settled.{IsWorking, IsCounted, accounts}
use nexus_llm_router.Engine.Ended.{IsDecided, refused}
use nexus_llm_router.Engine.Outcomes.{
  Answers, complete-Answers, Accounted, IsAlone, complete-Accounted,
}
use nexus_llm_router.Engine.Loads.{IsQuiet, load_score-complete}
use nexus_llm_router.Engine.Unwritten.{unwritten_answer, uncounted_answer, IsLost}

abbrev pub router : NexusRouter
router = record {
  rate_limiter = Limiter.init 5 1 10;
  circuit_breakers = Breaker.init 3 60;
  budget_guardrail = Budget.init 10000000 1;
  inflight_stats = [];
  scoreboard = record { latency_ref = 1000; stats = [] };
  success_stats = Success.init;
  error_budget_resets = record { reset_seconds = 60; windows = [] };
  weight_stats = record { decay_factor = ratio 1 2; recover = ratio 1 10; weights = [] };
  rate_limit_stats = record { max_observations = 100; observations = [] };
  cooldown = record { default_seconds = 30; until = [] };
  region_stats = Regions.init;
  latency_stats = [];
  slope_stats = record { window = 10; alpha = ratio 3 10; samples = [] };
  tenant_cascade = record { window_seconds = 3600; observations = [] };
  family_window = record { window_seconds = 3600; entries = [] };
  hourly_window = record { window_seconds = 3600; entries = [] };
  token_window = record { window_seconds = 60; entries = [] };
  cost_anomaly = record { max_observations = 100; observations = [] };
  spend_ledger = [];
  audit_log = [];
}

abbrev model_of : String → String → ModelCandidate
model_of model provider = record {
  model = model;
  provider = provider;
  quality_score = ratio 9 10;
  input_cost_per_1k = 3;
  output_cost_per_1k = 10;
  supports_domains = general ∷ [];
  supports_realtime = true;
  context_window = 128000;
  max_input_tokens = none;
  long_prompt_pricing = none;
  supported_regions = [];
}

abbrev catalog : Dict.Dict ModelCandidate
catalog = ("gpt", model_of "gpt" "openai") ∷ ("claude", model_of "claude" "anthropic") ∷ []

abbrev pub request : RouterRequest
request = record {
  request_id = "r1";
  messages = record { role = "user"; content = "hello" } ∷ [];
  api_key_id = "key";
  user_id = "ada";
  session_id = "s1";
  requested_model = none;
  strategy = none;
  token_budget = 100;
  region = none;
  max_tokens = 50;
  stream = false;
  metadata = [];
}

abbrev pub signals : TaskSignals
signals = record {
  complexity_score = ratio 1 2;
  domain_tag = general;
  latency_requirement = realtime;
  token_budget = 100;
  prompt_tokens_estimate = 2;
}

abbrev decision : RoutingDecision
decision = record {
  chosen_model = "gpt";
  provider = "openai";
  routing_strategy = "rule_based";
  rationale = "first";
  fallback_chain = "claude" ∷ [];
}

abbrev strategy : Strategy
strategy = record { strategy_name = "rule_based"; choose = λ request signals r. (ok decision, r) }

abbrev setup : Setup
setup = record {
  default_strategy = "rule_based";
  strategies = λ name. some strategy;
  model_catalog = catalog;
  analyze = λ request. signals;
  scrub = λ messages. messages;
  has_adapter = λ provider. true;
}

abbrev pub response : ProviderResponse
response = record {
  content = "hi";
  model = "claude";
  input_tokens = pos 2;
  output_tokens = pos 1;
  cost = 16;
  finish_reason = stop;
}

-- The first attempt fails by a rate limit, the second is answered.
abbrev first_fails : ℕ → Outcome
first_fails zero = raised (record { rate_limited = true; retry_after = none })
first_fails (suc n) = replied response

abbrev pub world : World
world = record {
  started = 0;
  call = λ i model messages max_tokens. first_fails i;
  meanwhile = λ i r. r;
  clock = λ i moment. 1;
  ledger_works = λ i. true;
  audit_works = λ i. true;
}

pub named_if :
    (b : Bool) (v c : ModelCandidate) (rest : Option ModelCandidate)
    → str_eq v.provider "" ≡ false
    → (rest ≡ some c → str_eq c.provider "" ≡ false)
    → (if b then some v else rest) ≡ some c
    → str_eq c.provider "" ≡ false
named_if true v c rest named others h = cc
named_if false v c rest named others h = others h

catalog-named :
    (m : String) (c : ModelCandidate) → Dict.get catalog m ≡ some c → str_eq c.provider "" ≡ false
unfolding Dict.get
catalog-named m c =
    named_if (str_eq "gpt" m) (model_of "gpt" "openai") c _ refl
      (named_if (str_eq "claude" m) (model_of "claude" "anthropic") c none refl (λ h. cc))

the_strategy : (chosen : Strategy) → some strategy ≡ some chosen → strategy ≡ chosen
the_strategy chosen h = cc

world-IsWorking : IsWorking setup world
world-IsWorking = record { ledger = λ i. refl; audit = λ i. refl; named = catalog-named }

first_fails-valid_counts :
    (i : ℕ) (p : ProviderResponse) → first_fails i ≡ replied p → valid_counts p ≡ true
unfolding valid_counts
first_fails-valid_counts zero p h = cc
first_fails-valid_counts (suc n) p h = let e : response ≡ p = cc in rw (← e) refl

pub world-IsCounted : IsCounted world
world-IsCounted = record { counts = λ i m messages most. first_fails-valid_counts i }

decision-Known : Known catalog ("gpt" ∷ "claude" ∷ [])
unfolding Dict.get
decision-Known = ((model_of "gpt" "openai", refl), ((model_of "claude" "anthropic", refl), tt))

setup-IsDecided : IsDecided setup
setup-IsDecided = record {
  found = λ request. (strategy, refl);
  decides = λ request r. (decision, refl, decision-Known);
}

complete-Answers_example :
    let (a, s) = complete setup world request router in
    ((a ≡ err rate_limit_exceeded) × (s ≡ refused world request router)) ⊎ Answers a s.current_state
complete-Answers_example =
    complete-Answers setup world request router world-IsWorking world-IsCounted setup-IsDecided

world-IsAlone : IsAlone setup world
world-IsAlone = record {
  waiting = λ i r. refl;
  choosing = λ name chosen found request r. rw (← the_strategy chosen found) refl;
}

complete-Accounted_example :
    let (a, s) = complete setup world request router in
    Accounted request (accounts router) a (accounts s.router)
complete-Accounted_example =
    complete-Accounted setup world request router world-IsWorking world-IsCounted setup-IsDecided
      world-IsAlone

world-IsQuiet : IsQuiet setup world
world-IsQuiet = record {
  waiting = λ i r q. refl;
  choosing = λ name chosen found request signals r q. rw (← the_strategy chosen found) refl;
}

load_score-complete_example :
    load_score (complete setup world request router).1.router.inflight_stats "openai"
    ≡ load_score router.inflight_stats "openai"
load_score-complete_example = load_score-complete setup world request router world-IsQuiet "openai"

order_attempts-Known_example :
    (ms : List String) × (order_attempts router.scoreboard catalog "gpt" ("claude" ∷ [])
      ≡ ok ("gpt" ∷ ms))
    × Known catalog ms
order_attempts-Known_example =
    order_attempts-Known catalog router.scoreboard "gpt" ("claude" ∷ []) decision-Known

order_attempts-occurs_example : occurs "claude" ("gpt" ∷ "claude" ∷ []) ≡ 1
unfolding order_attempts group_chain group_model gather rank Scoreboard.rank_all Scoreboard.place
    occurs Dict.get Dict.get_or Dict.put
order_attempts-occurs_example =
    order_attempts-occurs "claude" router.scoreboard catalog "gpt" ("claude" ∷ [])
      ("gpt" ∷ "claude" ∷ []) refl

-- The first provider answers, and the write to the ledger fails.
abbrev broken_world : World
broken_world = record {
  started = 0;
  call = λ i model messages max_tokens. replied response;
  meanwhile = λ i r. r;
  clock = λ i moment. 1;
  ledger_works = λ i. false;
  audit_works = λ i. true;
}

abbrev job : Job
job = record {
  request = request;
  signals = signals;
  strategy_name = "rule_based";
  decision = decision;
}

unwritten_answer_example :
    (attempt_all setup broken_world job 0
      ("gpt" ∷ "claude" ∷ [])
      (record { router = router; current_state = routed })).0
    ≡ err state_transition
unfolding Dict.get Dict.get_or Dict.setdefault guardrails ◌>>=◌ continue zoom
    Budget.assert_can_spend Breaker.assert_available Dict.put estimate_cost
unwritten_answer_example =
    unwritten_answer setup broken_world job 0 "gpt" (model_of "gpt" "openai") response router
      catalog-named refl refl refl refl refl "claude" [] decision-Known.1

-- The first provider reports -1 tokens.
abbrev miscounted : ProviderResponse
miscounted = record response { output_tokens = negsuc 0 }

abbrev miscounting_world : World
miscounting_world = record world { call = λ i model messages max_tokens. replied miscounted }

uncounted_answer_example :
    let (a, s) =
      attempt_all setup miscounting_world job 0
        ("gpt" ∷ "claude" ∷ [])
        (record { router = router; current_state = routed }) in
    (a ≡ err state_transition) × IsLost request (accounts router) miscounted (accounts s.router)
unfolding Dict.get Dict.get_or Dict.setdefault guardrails ◌>>=◌ continue zoom
    Budget.assert_can_spend Breaker.assert_available Dict.put estimate_cost valid_counts
uncounted_answer_example =
    uncounted_answer setup miscounting_world job 0 "gpt" (model_of "gpt" "openai") miscounted router
      catalog-named refl refl refl refl refl refl (λ j s. refl) "claude" [] decision-Known.1
