-- ===== src/Mcp/Execution.antt =====
-- `MCPExecutionService` of backend/app/services/mcp_execution_service.py: one row of
-- `MCPToolExecution`, and the methods that lock it, read it and commit it. Every method is one
-- transaction under `with_for_update`, so it is one step; the time and fresh tokens are arguments.
pub mod Row
pub mod Methods
pub mod Reconcile
pub mod Steps
pub mod Once
pub mod Prepare
pub mod Keys
pub mod Lease
pub mod ExecuteOnce
pub mod Outcomes
mod Examples
