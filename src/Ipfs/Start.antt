-- ===== src/Ipfs/Start.antt =====
-- src/lib.rs: the start of a node, its clones and their drops, down to the drops of the storage
-- service in src/db.rs and of the network service in src/net/mod.rs.
use ipfs_embed.Prelude.{
  ℕ, Bool, false, not, ◌&&◌, Option, none, some, is_some, if◌then◌else◌, ◌+◌, ◌-◌, ◌==◌,
}
use ipfs_embed.Result.{Result, ok, err, if_ok}
use ipfs_embed.Cli.Words.{Text, codes}
use ipfs_embed.Storage.State.{Action, FilePath, StorageConfig, new_config}
use ipfs_embed.Storage.Opening.{FileSystem, Openers, StorageServiceInner, open_inner}
use ipfs_embed.Network.Config.{NetworkConfig, Libp2p}
use ipfs_embed.Network.Config as Options
use mathlib.Core.Option
use ipfs_embed.Network.Setup.{Builders, NetworkService, SwarmLoop, new_service}
use ipfs_embed.Executor.{
  Features, Executor, Runtime, JoinHandle, tokio_task, async_task, abort, drop_handle,
}
use ipfs_embed.Executor
use ipfs_embed.Executor.Futures.{Future}

pub record Config : Type 0 where
  pub storage : StorageConfig
  pub network : NetworkConfig

-- `join` puts a name under a path.
unfoldable pub new_config_at :
    Libp2p → (FilePath → FilePath → FilePath) → Text → FilePath → ℕ → Config
new_config_at libp2p join name path keypair = record {
  storage = new_config (some (join path (codes "blocks"))) none 0 10000000000;
  network = Options.new libp2p name keypair;
}

-- The parts that the handles of a node share. A handle `Ipfs` is one of the network's service and
-- one of the storage's; one more of the storage's is in the bitswap protocol, if it is enabled, as
-- long as the future of the swarm's task is there. `storage_handles` and `network_handles` are the
-- counts of the two `Arc`s.
pub record Node (S : Type 0) : Type 0 where
  pub storage : StorageServiceInner S
  pub storage_handles : ℕ
  pub network : NetworkService
  pub network_handles : ℕ
  pub swarm_holds : Bool

unfoldable pub clone : {S : Type 0} → Node S → Node S
clone n = record n {
  storage_handles = n.storage_handles + 1;
  network_handles = n.network_handles + 1;
}

-- the task of a handle
abbrev pub task_of : JoinHandle → Option ℕ
task_of (tokio_task t) = some t
task_of (async_task t) = t

module _ {W G R F : Type 0} (rt : Runtime W F G R) where
  unfoldable pub lives_task : Option ℕ → W → Bool
  lives_task none w = false
  lives_task (some t) w = rt.lives w t

  abort_task : Features → Option JoinHandle → W → W
  unfolding abort
  abort_task fs none w = w
  abort_task fs (some h) w = abort rt fs h w

module _ {W S G R F : Type 0} (rt : Runtime W F G R) (fs : Features) where
  -- `StorageServiceInner::drop`
  unfoldable pub drop_inner : StorageServiceInner S → W → StorageServiceInner S × W
  unfolding abort_task
  drop_inner inner w = (record inner { gc_task = none }, abort_task rt fs inner.gc_task w)

  -- The drop of a `StorageService`: the last one drops what it shares.
  unfoldable pub drop_storage : Node S → W → Node S × W
  unfolding drop_inner
  drop_storage n w =
      let (inner, w') = drop_inner n.storage w in
      if n.storage_handles == 1
      then (record n { storage = inner; storage_handles = 0 }, w')
      else (record n { storage_handles = n.storage_handles - 1 }, w)

  -- The future of the swarm's task, where it is gone, drops its handle of the storage.
  unfoldable pub settle : Node S → W → Node S × W
  unfolding lives_task drop_storage
  settle n w =
      if n.swarm_holds && not (lives_task rt (task_of n.network.swarm_task) w)
      then drop_storage (record n { swarm_holds = false }) w
      else (n, w)

  -- The drop of a `NetworkService`: the last one drops the handle of the swarm's task.
  unfoldable pub drop_network : Node S → W → Node S × W
  unfolding drop_handle settle
  drop_network n w =
      if n.network_handles == 1
      then settle (record n { network_handles = 0 }) (drop_handle rt n.network.swarm_task w)
      else (record n { network_handles = n.network_handles - 1 }, w)

  -- The drop of an `Ipfs`, its storage first.
  unfoldable pub drop : Node S → W → Node S × W
  unfolding drop_storage drop_network
  drop n w = let (n', w') = drop_storage n w in drop_network n' w'

module _ {W S K D G R : Type 0} (files : FileSystem W) (db : Openers W S K) (libp2p : Libp2p)
    (lib : Builders W D) (rt : Runtime W (Future S (SwarmLoop D)) G R) (fs : Features) where
  -- The two handles of the storage that `new0` has, one of them for bitswap, and the network's.
  node : NetworkConfig → StorageServiceInner S → NetworkService → Node S
  node config storage network = record {
    storage = storage;
    storage_handles = if is_some config.bitswap then 2 else 1;
    network = network;
    network_handles = 1;
    swarm_holds = is_some config.bitswap;
  }

  -- Where the network fails, both handles of the storage are dropped.
  unfoldable pub connected :
      NetworkConfig → StorageServiceInner S → Result NetworkService × W → Result (Node S) × W
  unfolding node drop_inner
  connected config storage (ok network, w) = (ok (node config storage network), w)
  connected config storage (err e, w) = (err e, (drop_inner rt fs storage w).1)

  unfoldable pub new0 : Config → Executor → Action W (Node S)
  unfolding connected
  new0 config executor w =
      let (opened, w') = open_inner files db rt config.storage executor w in
      if_ok opened
        (λ storage.
          connected config.network storage (new_service libp2p lib rt config.network executor w'))
        (λ e. (err e, w'))

  -- `Ipfs::new`; `none` does not compile
  unfoldable pub new : Config → W → Option (Result (Node S) × W)
  unfolding new0
  new config w = Option.map (λ executor. new0 config executor w) (Executor.new fs)
