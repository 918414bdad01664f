-- ===== src/Strategies.antt =====
-- The strategies of router/strategies.py that are modelled. A strategy reads what it is built with: the
-- catalog, the counters and the health of the providers. A rationale that formats numbers is an
-- argument.
pub mod Base
pub mod Basic
pub mod Load
pub mod Health
pub mod Decided
pub mod Chosen
pub mod Optimal
pub mod Pareto
pub mod Default
