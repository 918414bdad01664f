-- ===== src/Safety.antt =====
-- Controls of safety/ that stand beside the engine.
pub mod Concurrency
pub mod StreamBudget
pub mod PriorityLane
pub mod Idempotency
pub mod FallbackChain
