-- ===== src/Executor/Futures.antt =====
-- The futures that the program spawns for the life of a node, in src/db.rs and src/net/mod.rs.
use ipfs_embed.Prelude.{ℕ, Option}

-- `S` is an open block store, and `N` the state of the swarm's loop.
pub data Future (S N : Type 0) : Type 0 where
  -- the collector's loop: on a connection of its own or on the shared store, with the interval
  -- between rounds, the least number of blocks of a round and the target for its duration
  collect : Option S → ℕ → ℕ → ℕ → Future S N
  poll_swarm : N → Future S N
