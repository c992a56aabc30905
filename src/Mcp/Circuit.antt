-- ===== src/Mcp/Circuit.antt =====
-- The circuit breaker of `MCPOperationsService` in backend/app/services/mcp_operations_service.py:
-- one row of `MCPServerHealth`, and the methods that lock it, change it and commit it. Every method
-- is one transaction under `with_for_update`, so it is one step; the time is an argument. The
-- reports (snapshot, alerts, metrics) only read the row and are left out.
pub mod Health
pub mod Methods
pub mod Control
pub mod Steps
pub mod Safety
pub mod Trial
pub mod Recovery
mod Examples
