-- ===== src/AddressBook/Invariant.antt =====
-- src/net/peers.rs: the invariant of the address book, and that its parts keep it.
pub mod Info
pub mod Book
pub mod Ops
pub mod Steps
pub mod Plans
pub mod Deferrals
pub mod Gauges
pub mod Listeners
pub mod Flights
