-- ===== src/AddressBook/Laws.antt =====
-- src/net/peers.rs: what the operations of the book do.
pub mod Pruning
pub mod Probing
pub mod Redials
pub mod Writes
pub mod Frame
pub mod Delays
