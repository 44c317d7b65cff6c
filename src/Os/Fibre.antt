-- ===== src/Os/Fibre.antt =====
-- os/src/os_fibre.c, the host's half: the cooperative scheduler.
mod State
mod Ops
mod Rotation
mod Choice
mod Fair
mod Valid
mod Chosen
mod Wake
mod Reach
mod Tests
