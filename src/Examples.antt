-- ===== src/Examples.antt =====
-- A small book, a peer that it knows, and the theorems at them.
pub mod NodeAt
pub mod Constants
pub mod BookAt
pub mod PeerAt
pub mod QueriesAt
pub mod GossipAt
pub mod ServiceAt
pub mod StreamsAt
pub mod StorageAt
pub mod IpfsAt
pub mod CliAt
pub mod ClientAt
pub mod HarnessAt
