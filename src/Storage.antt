-- ===== src/Storage.antt =====
-- src/db.rs: the storage service, over the block store of another package.
pub mod State
pub mod Batch
pub mod Opening
pub mod Service
pub mod Collection
pub mod Spec
pub mod Refinement
pub mod Eviction
pub mod Origin
