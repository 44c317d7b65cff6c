-- ===== src/Services.antt =====
-- services/: the device registry and the services over it.
pub mod Registry
pub mod Interview
pub mod Capability
pub mod Quirks
pub mod HaDisc
