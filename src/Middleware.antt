-- ===== src/Middleware.antt =====
-- The middlewares of the router (backend/internal/middleware).
pub mod RateLimit
pub mod ErrorHandler
pub mod Headers
mod Tests
