-- ===== src/Stats/Samples.antt =====
-- The bounded sample lists of router/strategies.py: `LatencyStats`, `LatencySlopeStats`,
-- `RateLimitStats` and `CostAnomalyStats`. Each appends a sample and drops the oldest when there
-- are more than it retains. Means and rates are exact fractions.
pub mod Latency
pub mod RateLimits
pub mod CostAnomaly
