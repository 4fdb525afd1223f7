-- ===== src/Scenario.antt =====
-- Scenarios as oqlos/core/executor.py runs them: so far their conditions.
pub mod Expression
pub mod Orchestrator
