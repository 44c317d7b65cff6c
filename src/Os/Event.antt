-- ===== src/Os/Event.antt =====
-- os/src/os_event.c: the event bus. The state, the operations in three files, and what is proved of
-- them.
pub mod State
pub mod Publish
pub mod Subscribe
pub mod Dispatch
pub mod Valid
pub mod Fifo
pub mod Handlers
pub mod Delivery
pub mod Subscribers
pub mod Reach
mod Tests
