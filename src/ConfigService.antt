-- ===== src/ConfigService.antt =====
-- The configuration service (backend/internal/service/app_config_service.go). The state is the
-- pointer `dbConfig` and the database; a method returns the state that it leaves and its result.
-- A transaction that is not committed is rolled back, by the database.
pub mod Dto
pub mod Database
pub mod State
pub mod Loading
pub mod Staging
pub mod Methods
pub mod Rows
pub mod Staged
pub mod Transactions
pub mod Failures
pub mod Reload
pub mod Inputs
pub mod Outcomes
pub mod FromEnv
pub mod Startup
pub mod Success
mod Tests
