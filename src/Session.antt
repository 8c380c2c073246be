-- ===== src/Session.antt =====
-- internal/session: sessions with the server.
pub mod Types
pub mod Pool
pub mod Modes
pub mod Examples
