-- ===== src/Agent.antt =====
-- The repair agent: backend/app/agent.
pub mod State
pub mod Outcome
pub mod Verdict
pub mod Routing
pub mod Graph
mod Examples
pub mod Loop
