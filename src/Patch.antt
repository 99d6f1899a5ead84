-- ===== src/Patch.antt =====
-- The agent's package updates (agent/internal/patch): which requested ids reach a package manager.
pub mod Plan
pub mod Dnf
pub mod Install
