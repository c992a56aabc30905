-- ===== src/Mcp.antt =====
-- The MCP tool layer: backend/app/mcp and the mcp_* services of backend/app/services.
pub mod Execution
pub mod Circuit
pub mod Approval
pub mod Router
pub mod Quota
pub mod Client
