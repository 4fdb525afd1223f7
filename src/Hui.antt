-- ===== src/Hui.antt =====
-- The hold recipes of oqlos/hardware/hui_hold.py.
pub mod Gateway
pub mod Readiness
pub mod Valves
pub mod Operation
pub mod Shutdown
pub mod Profiles
pub mod Hold
