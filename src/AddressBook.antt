-- ===== src/AddressBook.antt =====
-- src/net/peers.rs: the address book.
pub mod State
pub mod Dial
pub mod Addresses
pub mod Prune
pub mod Connections
pub mod Identify
pub mod Failures
pub mod Handler
pub mod Swarm
pub mod Invariant
pub mod Laws
