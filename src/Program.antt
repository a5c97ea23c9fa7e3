-- ===== src/Program.antt =====
-- The start of the program and its end (backend/internal/bootstrap).
pub mod Bootstrap
pub mod Database
pub mod Router
pub mod Start
pub mod Observability
pub mod Scheduler
mod Tests
