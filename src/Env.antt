-- ===== src/Env.antt =====
-- The configuration from the environment (backend/internal/common/env_config.go).
pub mod Schema
pub mod Prepare
pub mod Fields
pub mod Prepared
pub mod Reprepared
pub mod Validate
pub mod Valid
pub mod Conditions
pub mod Accepted
pub mod Tests
