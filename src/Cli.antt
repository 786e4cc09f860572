-- ===== src/Cli.antt =====
-- cli/src/lib.rs and cli/src/main.rs: the text protocol of the command line.
pub mod Words
pub mod Config
pub mod Start
pub mod Naming
pub mod Hex
pub mod Codecs
pub mod Command
pub mod Event
pub mod RoundTrip
pub mod Main
pub mod Lines
