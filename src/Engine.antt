-- ===== src/Engine.antt =====
-- router/engine.py: `NexusRouter`.
pub mod State
pub mod Order
pub mod Request
pub mod Respond
pub mod Attempt
pub mod Complete
pub mod Preserves
pub mod Loads
pub mod Settled
pub mod Ended
pub mod Outcomes
pub mod Stuck
pub mod Unwritten
pub mod Runs
pub mod Answered
pub mod Stream
