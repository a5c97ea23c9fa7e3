-- ===== src/Lock.antt =====
-- The application lock (backend/internal/service/app_lock_service.go).
pub mod Value
pub mod Sql
pub mod State
pub mod Acquire
pub mod Renewal
pub mod Holding
pub mod Retries
pub mod Loop
pub mod Exclusion
pub mod Handover
pub mod Tests
