-- ===== src/Sandbox/ExecutionPlane.antt =====
-- `execute` of backend/app/sandbox/execution_plane.py on the memory store: a request is identified,
-- allowlisted, claimed, run and committed.
pub mod Request
pub mod Execute
pub mod Safety
pub mod Commit
mod Examples
