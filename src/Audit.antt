-- ===== src/Audit.antt =====
-- internal/audit
pub mod Event
pub mod Policy
pub mod Recorder
