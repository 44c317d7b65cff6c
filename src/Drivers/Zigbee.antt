-- ===== src/Drivers/Zigbee.antt =====
-- drivers/zigbee/: the adapter to the ESP Zigbee stack.
pub mod State
pub mod Cache
pub mod Pending
pub mod Commands
pub mod Signals
pub mod Leak
pub mod Level
mod Tests
pub mod CacheView
