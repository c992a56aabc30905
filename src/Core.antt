-- ===== src/Core.antt =====
-- The parts of backend/app/core that keep state.
pub mod ReplayCache
