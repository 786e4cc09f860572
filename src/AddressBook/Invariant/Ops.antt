-- ===== src/AddressBook/Invariant/Ops.antt =====
-- src/net/peers.rs: the operations of the book keep its invariant.
pub mod Simple
pub mod Failing
pub mod Identifying
