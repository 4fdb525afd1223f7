-- ===== src/Oql/Motor2.antt =====
-- packages/oqlos-core/src/oqlos/core/motor2_runtime.py: the stepper motor of the artificial lung.
pub mod Config
pub mod Plan
pub mod Bounds
