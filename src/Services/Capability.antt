-- ===== src/Services/Capability.antt =====
-- services/src/capability.c: the capabilities of a node.
pub mod Types
pub mod Compute
pub mod Info
pub mod Report
mod State
mod Expected
mod Reported
mod Command
pub mod Given
pub mod Computed
pub mod Outcome
mod Tests
