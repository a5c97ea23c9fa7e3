-- ===== src/Storage.antt =====
-- The file storage (backend/internal/storage/filesystem.go).
pub mod Filesystem
pub mod Atomic
pub mod Paths
pub mod Walk
pub mod Reading
mod Tests
