-- ===== src/Worker.antt =====
-- internal/worker: the client by which a worker talks to the control plane.
pub mod Retry
pub mod Shipper
mod Examples
