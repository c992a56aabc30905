-- ===== src/Mcp/Approval.antt =====
-- `MCPApprovalService` of backend/app/services/mcp_approval_service.py: one row of
-- `MCPToolApproval`, the methods that lock it, change it and commit it, and what it shows to the
-- outside. `mark_run_waiting_reconciliation` and `prepare_resume_target` of
-- backend/app/services/mcp_execution_service.py change the same row.
pub mod Row
pub mod Methods
pub mod Create
pub mod Steps
pub mod Decisions
pub mod Resume
pub mod Table
pub mod Redaction
mod Examples
