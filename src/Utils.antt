-- ===== src/Utils.antt =====
-- Helpers of backend/internal/utils.
pub mod Characters
pub mod CaseStyle
pub mod RandomString
pub mod Files
mod Tests
