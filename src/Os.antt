-- ===== src/Os.antt =====
-- os/: the operating-system layer.
pub mod Types
pub mod Event
pub mod Persist
pub mod Shell
pub mod Fibre
pub mod Log
