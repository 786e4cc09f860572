-- ===== src/Storage/State.antt =====
-- src/db.rs: the block store that the service is built on, its configuration and its state.
use ipfs_embed.Prelude.{ℕ, Bool, List, Option, String, ◌^◌, ◌-◌, ◌*◌, ◌+◌}
use ipfs_embed.Result.{Result, ok, err, if_ok}
use ipfs_embed.Network.State.{Cid, Bytes}

pub record Block : Type 0 where
  pub cid : Cid
  pub data_ : Bytes

-- An operation on a state of type `T`: it may fail, and may have changed the state when it does.
abbrev pub Action : Type 0 → Type 0 → Type 0
Action T A = T → Result A × T

-- One operation after another, up to the first error.
infixl 5 ◌>>=◌
unfoldable pub ◌>>=◌ : {T A B : Type 0} → Action T A → (A → Action T B) → Action T B
(m >>= f) t = let (r, t') = m t in if_ok r (λ a. f a t') (λ e. (err e, t'))

abbrev pub pure : {T A : Type 0} → A → Action T A
pure a t = (ok a, t)

-- A path is its text.
abbrev pub FilePath : Type 0
FilePath = List ℕ

-- `BlockStore`, `Transaction` and `TempPin` of ipfs_sqlite_block_store, as types `S`, `T` and `P`.
-- `rollback` is the drop of a transaction that was not committed.
pub record BlockStore (S T P : Type 0) : Type 0 where
  pub transaction : S → T
  pub commit : T → Result (Unit {0}) × S
  pub rollback : T → S
  pub temp_pin : T → P × T
  pub extend_temp_pin : P → Cid → T → (Result (Unit {0}) × P) × T
  pub get_block_cids : Action T (List Cid)
  pub has_block : Cid → Action T Bool
  pub get_block : Cid → Action T (Option Bytes)
  pub put_block : Block → Action T (Unit {0})
  pub resolve : Bytes → Action T (Option Cid)
  pub alias : Bytes → Option Cid → Action T (Unit {0})
  pub aliases : Action T (List (Bytes × Cid))
  pub reverse_alias : Cid → Action T (Option (List Bytes))
  pub get_missing_blocks : Cid → Action T (List Cid)
  pub incremental_gc : ℕ → ℕ → Action S Bool
  pub flush : Action S (Unit {0})
  pub get_store_stats : Action S (ℕ × ℕ)

-- `StorageConfig`; a duration is its nanoseconds
pub record StorageConfig : Type 0 where
  pub path : Option FilePath
  pub access_db_path : Option FilePath
  pub cache_size_blocks : ℕ
  pub cache_size_bytes : ℕ
  pub gc_interval : ℕ
  pub gc_min_blocks : ℕ
  pub gc_target_duration : ℕ

max_u64 : ℕ
max_u64 = 2 ^ 64 - 1

unfoldable pub new_config : Option FilePath → Option FilePath → ℕ → ℕ → StorageConfig
unfolding max_u64
new_config path access_db_path cache_size gc_interval = record {
  path = path;
  access_db_path = access_db_path;
  cache_size_blocks = cache_size;
  cache_size_bytes = max_u64;
  gc_interval = gc_interval;
  gc_min_blocks = max_u64;
  gc_target_duration = max_u64 * 1000000000 + 999999999;
}

-- `StorageServiceInner`, with the labels that were counted in `QUERIES_TOTAL`, and those with a
-- time in `QUERY_DURATION`, the last one first.
pub record Storage (S : Type 0) : Type 0 where
  pub store : S
  pub queries_total : List String
  pub query_duration : List String
  pub gc_min_blocks : ℕ
  pub gc_target_duration : ℕ
