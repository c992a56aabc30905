-- ===== src/Mcp/Quota.antt =====
-- `MCPQuotaService` of backend/app/services/mcp_quota_service.py, on the tables of
-- backend/app/models/mcp_quota.py and the keys that its Redis script writes.
pub mod Policy
pub mod Payload
pub mod Methods
pub mod Changes
pub mod Update
pub mod Valid
pub mod Scope
pub mod Usage
pub mod Check
pub mod Script
pub mod RedisReserve
pub mod Booking
pub mod Reserve
pub mod Release
pub mod Sums
pub mod Limits
pub mod Cases
pub mod Renewal
pub mod Accepted
pub mod Steps
pub mod Keys
pub mod Unique
pub mod Lease
pub mod Exclusion
pub mod Atomic
pub mod Counters
pub mod ScriptLimits
pub mod StaleRelease
pub mod Purge
pub mod Retention
pub mod Examples
mod ScriptExamples
mod PolicyExamples
