-- ===== src/Config.antt =====
-- The application's configuration (backend/internal/model/app_config.go).
pub mod Field
pub mod Values
pub mod Access
pub mod Durations
mod Tests
