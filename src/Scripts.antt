-- ===== src/Scripts.antt =====
-- How the agent runs a script and what it reports of it (agent/internal/scripts).
pub mod Chunk
pub mod Env
pub mod Interp
pub mod Job
pub mod Publish
pub mod Runner
pub mod Running
pub mod Stage
mod Tests
