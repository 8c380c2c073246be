-- ===== src/Runs.antt =====
-- internal/controlplane/runmanager: the life of a run.
pub mod States
pub mod EventLog
pub mod Manager
pub mod Stop
pub mod Progress
pub mod Loss
pub mod History
pub mod Endings
pub mod Ramp
pub mod Queries
mod Examples
