-- ===== src/Drivers.antt =====
-- drivers/: the device drivers.
pub mod Zigbee
