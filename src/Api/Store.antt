-- ===== src/Api/Store.antt =====
-- internal/controlplane/api/telemetry_store.go: the store of the telemetry of runs.
pub mod Records
pub mod Batches
pub mod Queries
pub mod Histories
pub mod Keys
pub mod Tracks
pub mod Order
pub mod Entries
pub mod Bounds
pub mod Pages
mod Examples
