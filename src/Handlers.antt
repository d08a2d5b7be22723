-- ===== src/Handlers.antt =====
-- internal/handlers, with internal/errors: the two public endpoints.
pub mod Audit
pub mod Request
pub mod Verify
pub mod Exchange
