-- ===== src/Harness.antt =====
-- harness/src/lib.rs: the nodes of a simulated network and their roles, and the tree of blocks that they
-- exchange. The network itself is the package netsim_embed.
pub mod Roles
pub mod Tree
pub mod Closed
pub mod Deadlines
pub mod Partition
