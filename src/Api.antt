-- ===== src/Api.antt =====
-- internal/controlplane/api: the part of the HTTP server that is modelled.
pub mod RateLimit
pub mod Store
mod Examples
