-- ===== src/Sched.antt =====
-- The agent's local schedule (agent/internal/sched): the misfire policy, the queue of fires and the sync.
pub mod Misfire
pub mod Queue
