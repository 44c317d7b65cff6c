-- ===== src/Os/Persist.antt =====
-- os/src/os_persist.c, the host implementation: a buffer of writes before a directory of files.
pub mod Types
pub mod Flush
pub mod Ops
pub mod Admin
pub mod Lookup
pub mod FlushView
pub mod View
pub mod PutSlot
pub mod PutView
pub mod GetView
pub mod Loss
pub mod DelView
pub mod Memory
mod Tests
