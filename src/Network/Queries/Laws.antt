-- ===== src/Network/Queries/Laws.antt =====
-- src/net/behaviour.rs: what the events of Kademlia and of bitswap do to the waiting queries.
pub mod Senders
pub mod Replies
pub mod Providers
