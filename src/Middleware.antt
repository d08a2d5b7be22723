-- ===== src/Middleware.antt =====
-- internal/middleware
pub mod RateLimit
pub mod Cors
