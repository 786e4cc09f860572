-- ===== src/Storage/Opening.antt =====
-- src/db.rs: `StorageServiceInner::open`.
use ipfs_embed.Prelude.{ℕ, [], Bool, Option, none, some, if◌then◌else◌}
use ipfs_embed.Result.{ok, err, if_ok}
use ipfs_embed.Cli.Words.{codes}
use ipfs_embed.Storage.State.{Action, ◌>>=◌, pure, FilePath, StorageConfig, Storage}
use ipfs_embed.Executor.{Executor, Runtime, JoinHandle, spawn}
use ipfs_embed.Executor.Futures.{Future, collect}

-- The file system of the standard library.
pub record FileSystem (W : Type 0) : Type 0 where
  pub is_file : FilePath → W → Bool
  pub create_dir_all : FilePath → Action W (Unit {0})
  pub join : FilePath → FilePath → FilePath

pub data Synchronous : Type 0 where
  full normal off : Synchronous

-- `Config` of the block store, with a tracker of type `K`
pub record StoreConfig (K : Type 0) : Type 0 where
  pub size_targets : ℕ × ℕ
  pub pragma_synchronous : Synchronous
  pub cache_tracker : K

-- How ipfs_sqlite_block_store opens its trackers and its stores, which are of type `S`.
pub record Openers (W S K : Type 0) : Type 0 where
  pub sqlite_tracker : FilePath → Action W K
  pub in_mem_tracker : K
  pub open_file : FilePath → StoreConfig K → Action W S
  pub memory : StoreConfig K → Action W S
  pub additional_connection : S → Action W S

-- `StorageServiceInner`, with the store and its metrics as `Storage` has them
pub record StorageServiceInner (S : Type 0) : Type 0 where
  pub executor : Executor
  pub storage : Storage S
  pub gc_task : Option JoinHandle

module _ {W S K N G R : Type 0} (fs : FileSystem W) (db : Openers W S K)
    (rt : Runtime W (Future S N) G R) where
  -- A file as it is, or the file of a name in a directory that is made if it is not there.
  unfoldable pub file_in : FilePath → FilePath → Action W FilePath
  file_in name path w =
      if fs.is_file path w
      then (ok path, w)
      else let (made, w') = fs.create_dir_all path w in
        (if_ok made (λ _. ok (fs.join path name)) err, w')

  unfoldable pub open_tracker : Option FilePath → Action W K
  unfolding file_in
  open_tracker none = pure db.in_mem_tracker
  open_tracker (some path) = file_in (codes "access") path >>= db.sqlite_tracker

  unfoldable pub open_store : Option FilePath → StoreConfig K → Action W S
  unfolding file_in
  open_store none config = db.memory config
  open_store (some path) config = file_in (codes "db") path >>= λ file. db.open_file file config

  -- A store in memory has no second connection: its collector shares the first one.
  unfoldable pub gc_connection : Option FilePath → S → Action W (Option S)
  gc_connection none store = pure none
  gc_connection (some path) store = db.additional_connection store >>= λ gc. pure (some gc)

  unfoldable pub store_config : StorageConfig → K → StoreConfig K
  store_config config tracker = record {
    size_targets = (config.cache_size_blocks, config.cache_size_bytes);
    pragma_synchronous = normal;
    cache_tracker = tracker;
  }

  inner : StorageConfig → Executor → S → JoinHandle → StorageServiceInner S
  inner config executor store gc_task = record {
    executor = executor;
    storage = record {
      store = store;
      queries_total = [];
      query_duration = [];
      gc_min_blocks = config.gc_min_blocks;
      gc_target_duration = config.gc_target_duration;
    };
    gc_task = some gc_task;
  }

  -- The service, with the task of its collector.
  spawn_gc : StorageConfig → Executor → S → Option S → Action W (StorageServiceInner S)
  unfolding spawn inner
  spawn_gc config executor store gc w =
      let (gc_task, w') =
        spawn rt executor
          (collect gc config.gc_interval config.gc_min_blocks config.gc_target_duration) w in
      (ok (inner config executor store gc_task), w')

  unfoldable pub open_inner : StorageConfig → Executor → Action W (StorageServiceInner S)
  unfolding open_tracker open_store gc_connection spawn_gc store_config
  open_inner config executor = do
    tracker ← open_tracker config.access_db_path
    store ← open_store config.path (store_config config tracker)
    gc ← gc_connection config.path store
    spawn_gc config executor store gc
