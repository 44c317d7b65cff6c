-- ===== src/Adapters/Mqtt.antt =====
-- adapters/mqtt_adapter/: the MQTT adapter, the host's half.
pub mod State
pub mod Ops
mod Counted
mod Decoded
mod Tests
