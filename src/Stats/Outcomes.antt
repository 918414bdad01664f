-- ===== src/Stats/Outcomes.antt =====
-- `SuccessStats`, `ProviderWeightStats` and `ProviderErrorBudgetResetStats` of router/strategies.py.
pub mod Success
pub mod Weights
pub mod Resets
