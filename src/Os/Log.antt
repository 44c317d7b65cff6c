-- ===== src/Os/Log.antt =====
-- os/src/os_log.c: the log, a ring of messages that a task prints.
pub mod Ops
pub mod Ring
pub mod Queue
mod Tests
