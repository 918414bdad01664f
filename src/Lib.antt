-- ===== src/Lib.antt =====
-- nexus-llm-router routes chat requests to language-model providers. This library models its routing
-- engine and the guards and counters that the engine keeps, and proves what they promise.
--
-- The parts and their files (paths from the repository's root):
--   Lifecycle      src/router/state.py, the states of a request
--   Breaker        src/safety/circuit_breaker.py, one circuit for each provider
--   Limiter        src/safety/rate_limiter.py and tenant_rate_limiter.py, token buckets
--   Budget         src/safety/budget.py, the spend of each user
--   Scoreboard     src/router/fallback_scoreboard.py, the ranking of the providers
--   Schemas        src/router/schemas.py, the data of a request and the costs
--   Stats          src/router/strategies.py, the counters that the engine updates
--   Catalog        src/router/config.py and model_ids.py, the default catalog
--   Strategies     src/router/strategies.py, eight strategies and their base class
--   Engine         src/router/engine.py, `NexusRouter.complete` and `complete_stream`, with the rows of
--                  src/safety/spend_ledger.py
--   Safety         src/safety/tenant_concurrency.py, stream_budget.py, idempotency.py,
--                  priority_lane.py and fallback_chain.py, which the engine does not call
--   Prelude        shared types, dicts, fractions, sorting, and the building of actions
--   Tests          runs on small inputs
--
-- How they interact: `complete` asks the rate limiter, takes the request through `Lifecycle`, lets a
-- strategy decide, orders the models of the decision by the scoreboard, and tries them one by one.
-- Each attempt is guarded by the budget and the circuit, calls the provider between the in-flight
-- counters, and ends in `respond`, which updates every counter, the ledger and the audit log, or in
-- `handle_failure`, which records the failure and goes on. Engine/State has the router as a record of
-- its parts, Engine/Order `_order_attempts`, Engine/Respond `_respond`, Engine/Attempt one provider
-- call, and Engine/Complete the loop. `complete_stream`, in Engine/Stream, makes the same attempts with a
-- stream of chunks in place of one answer. Strategies/Default joins the modelled strategies and the
-- default catalog with the engine. A method that reads and writes an object is a function from the
-- object to a result and the object; an exception is an `err` that keeps the changes made before it.
--
-- Parameters: what the engine is given and code that it only calls is an argument. `Setup` has the
-- catalog, the strategies, the analyzer, the scrubber and the adapters; `World` has, by the number of
-- the attempt, what a provider answers, what other requests do to the router while this one awaits
-- the answer, the readings of the clocks, and whether the two writes to disk succeed. A provider may report
-- any integer as a number of tokens, as `ProviderResponse` allows; `RouterResponse` refuses a negative
-- one, and that exception is modelled.
--
-- Numbers: times are ticks of a clock, money, tokens and latencies are counted in whole units, and
-- rates and scores are exact fractions, where the code has floating-point numbers; rounding is not
-- modelled. A difference of two readings that the code compares is written as a sum, since
-- subtraction stops at 0. Loops run over lists; the scan of the priority lanes runs for as many
-- places as its cycle has, which is enough to find a request that is pending.
--
-- Not modelled: a caller that stops reading a stream; metrics, log lines and traces; cancellation of a
-- request while it awaits a provider; the decay of the scoreboard, which the engine does not turn on;
-- the other strategies, and the texts in which a strategy explains its choice with numbers; the
-- adapters, the HTTP service, the caches and the classifier; and the other safety controls that the
-- engine does not call.
mod Prelude
pub mod Lifecycle
pub mod Breaker
pub mod Limiter
pub mod Budget
pub mod Stats
pub mod Scoreboard
pub mod Safety
pub mod Schemas
pub mod Catalog
pub mod Strategies
pub mod Engine
mod Tests
