-- ===== src/Lock/Tests.antt =====
-- Concrete services, an encoding and the witnesses of the theorems on the lock.
pub mod Text
pub mod Examples
