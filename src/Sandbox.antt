-- ===== src/Sandbox.antt =====
-- The sandbox execution plane: backend/app/sandbox.
pub mod ExecutionStore
pub mod RedisStore
pub mod WorkloadIdentity
pub mod ExecutionPlane
mod Examples
pub mod Patches
