-- ===== src/Telemetry.antt =====
-- internal/telemetry: what the workers record, on its way to the control plane.
pub mod Queue
mod Examples
