-- ===== src/Adapters.antt =====
-- adapters/: the connection to the outside.
pub mod Mqtt
