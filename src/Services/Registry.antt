-- ===== src/Services/Registry.antt =====
-- services/src/registry.c and services/include/reg_types.h: the device registry. The data, the
-- operations on nodes and on what a node holds, and what is proved of them.
pub mod Types
pub mod Nodes
pub mod Parts
pub mod Valid
pub mod Keep
pub mod Directory
pub mod Outcome
pub mod KeepParts
pub mod KeepPointers
pub mod Run
pub mod Storage
pub mod Unsaved
mod Tests
