-- ===== src/Tests.antt =====
-- Runs of the model on small inputs.
mod Safety
mod Controls
mod Counters
mod Requests
mod Stores
mod Choices
