-- ===== src/Agentcore.antt =====
-- The supervisor of the agent's tasks and the loops that it runs itself (agent/internal/agentcore).
pub mod Supervise
pub mod Certificates
pub mod Link
mod Tests
