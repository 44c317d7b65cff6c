-- ===== src/Services/Interview.antt =====
-- services/src/interview.c: the interviews of new devices.
pub mod State
pub mod Advance
pub mod Ops
pub mod Steps
pub mod Timeouts
pub mod Process
pub mod Keep
pub mod Run
pub mod Expired
mod Tests
