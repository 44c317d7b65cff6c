-- ===== src/Services/HaDisc.antt =====
-- services/ha_disc/ha_disc.c: the discovery messages for Home Assistant.
mod Escape
mod State
mod Messages
mod Ops
mod Config
mod Round
mod Lost
mod Leftover
mod Tests
