-- ===== src/Vu.antt =====
-- internal/vu: the engine of the virtual users, in part.
pub mod Sampler
pub mod Limits
mod Examples
