-- ===== src/Cqrs.antt =====
-- oqlos/core/cqrs: events, the event store, commands, aggregates and projections.
pub mod Event
pub mod Store
pub mod Aggregate
pub mod Projection
pub mod Command
pub mod Peripheral
pub mod Execution
pub mod Bus
pub mod Telemetry
