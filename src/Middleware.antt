-- ===== src/Middleware.antt =====
-- internal/middleware: the limit on requests.
pub mod RateLimit
