-- ===== src/Scheduler.antt =====
-- internal/controlplane/scheduler: who may run which virtual users.
pub mod Types
pub mod Ids
pub mod Leases
pub mod Registry
pub mod Allocator
pub mod Heartbeat
mod Examples
mod FleetExamples
