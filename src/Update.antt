-- ===== src/Update.antt =====
-- The agent's self-update (agent/internal/update): the record of an update in flight, probation, rollback
-- and the swap of the binary.
pub mod State
pub mod Disk
pub mod Tracker
pub mod Rollback
pub mod Verify
pub mod Watch
pub mod Download
pub mod Swap
pub mod Apply
pub mod Tests
