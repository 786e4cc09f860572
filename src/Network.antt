-- ===== src/Network.antt =====
-- src/net/behaviour.rs and src/net/mod.rs: the network behaviour and its service.
pub mod Config
pub mod Setup
pub mod State
pub mod Queries
pub mod Requests
pub mod Gossip
pub mod Service
pub mod Client
