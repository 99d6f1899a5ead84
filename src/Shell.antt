-- ===== src/Shell.antt =====
-- What holds a terminal session's output back (agent/internal/shell): the ring buffer for a
-- disconnected transport and the flow controller for a slow one.
pub mod Ring
pub mod Flow
pub mod Session
pub mod Module
mod Tests
