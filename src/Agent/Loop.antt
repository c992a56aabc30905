-- ===== src/Agent/Loop.antt =====
-- The local agent loop: backend/app/agent/actions.py and backend/app/agent/loop.py.
pub mod Actions
pub mod State
pub mod Updates
pub mod Summary
pub mod Execute
pub mod Planner
pub mod Budget
pub mod Cases
pub mod Termination
pub mod Safety
mod Examples
