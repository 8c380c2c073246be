-- ===== src/Session/Modes.antt =====
-- internal/session/modes.go and manager.go: how virtual users get their sessions.
pub mod Handshake
pub mod Heap
pub mod Reuse
pub mod Churn
pub mod Manager
mod Examples
