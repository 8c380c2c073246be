-- ===== src/Transport.antt =====
-- internal/transport: how a worker talks to a server.
pub mod Sse
mod Examples
