-- ===== src/Cli/RoundTrip.antt =====
-- cli/src/lib.rs: what is written on a line is read back.
pub mod Parts
pub mod Blocks
pub mod Commands
pub mod Events
