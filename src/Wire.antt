-- ===== src/Wire.antt =====
-- The agent's side of the wire contract (agent/internal/wire).
pub mod Identifier
pub mod Subjects
pub mod MsgId
mod Tests
