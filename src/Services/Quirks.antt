-- ===== src/Services/Quirks.antt =====
-- services/src/quirks.c: corrections of what non-standard devices report and are told.
mod Table
mod Apply
mod Match
mod Effects
mod Tests
