-- ===== src/Admin.antt =====
-- internal/admin: the dashboard's API.
pub mod Auth
pub mod Query
pub mod Api
pub mod Links
pub mod Me
pub mod Metrics
