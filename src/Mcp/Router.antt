-- ===== src/Mcp/Router.antt =====
-- `MCPToolRouter` of backend/app/mcp/router.py: the catalogue of remote tools, the validation of what
-- a model proposes to call, and the calls.
pub mod Arguments
pub mod Plan
pub mod Cases
pub mod Soundness
pub mod Distinct
pub mod Execute
pub mod Calls
pub mod Approved
pub mod References
pub mod Catalog
pub mod Discovery
pub mod Authority
mod Examples
