-- ===== src/Jobs.antt =====
-- The agent's job runner (agent/internal/jobs): which job runs when, what each kind of job does, and what it
-- reports.
pub mod Dispatch
pub mod Commands
pub mod Effects
pub mod Failure
pub mod Inflight
pub mod Patch
pub mod Update
mod Tests
