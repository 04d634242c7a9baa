-- ===== src/Boot.antt =====
-- The frame of the program: `main` of src/main.rs and the tasks it starts itself, `main` of
-- bootloader/src/main.rs, and src/defmt_log.rs.
pub mod Start
pub mod Restart
pub mod Watchdog
pub mod Loader
pub mod Logger
pub mod Pins
