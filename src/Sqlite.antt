-- ===== src/Sqlite.antt =====
-- The SQLite part of the database bootstrap (backend/internal/bootstrap/db_bootstrap.go).
pub mod Values
pub mod Options
pub mod Folders
pub mod Connecting
pub mod Opening
pub mod Promises
pub mod Conversion
pub mod Tests
