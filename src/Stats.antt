-- ===== src/Stats.antt =====
-- The counters and windows of router/strategies.py that the engine updates and the strategies read.
pub mod Inflight
pub mod Samples
pub mod Outcomes
pub mod Windows
pub mod Cooldown
pub mod Regions
