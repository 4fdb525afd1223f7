-- ===== src/Tests.antt =====
-- Runs of the model at concrete inputs, with numbers for floats.
mod CqrsRuns
mod HuiRuns
mod OqlRuns
mod FlowRuns
mod PowerRuns
mod ReadinessRuns
pub mod Floats
mod GateRuns
mod MotorRuns
mod ScenarioRuns
mod OrchestratorRuns
mod LungRuns
