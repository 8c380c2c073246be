-- ===== src/Validation.antt =====
-- internal/validation: what a run may do.
pub mod Policy
pub mod Ssrf
mod Examples
