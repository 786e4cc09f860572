-- ===== src/Storage/Collection.antt =====
-- src/db.rs: garbage collection, flush and statistics, which run outside a transaction.
use ipfs_embed.Prelude.{
  if◌then◌else◌, ℕ, zero, suc, Bool, List, [], ◌∷◌, Option, none, some, String,
}
use ipfs_embed.Result.{Result, ok, err, if_ok}
use ipfs_embed.Storage.State.{Action, BlockStore, Storage}
use ipfs_embed.Storage.Service.{counted, timed}

module _ {S T P : Type 0} (db : BlockStore S T P) where
  unfoldable pub collect_round : Action (Storage S) Bool
  collect_round s =
      let (res, store') = db.incremental_gc s.gc_min_blocks s.gc_target_duration s.store in
      (res, record s { store = store' })

  -- A round of the background task: it drops an error.
  unfoldable pub gc_task_round : Storage S → Storage S
  unfolding collect_round
  gc_task_round s = (collect_round s).1

  -- The loop of `evict` on fuel; `none` is that the fuel ran out.
  unfoldable pub evict : ℕ → Storage S → Option (Result (Unit {0}) × Storage S)
  unfolding collect_round
  evict zero s = none
  evict (suc fuel) s =
      let (res, s') = collect_round s in
      if_ok res (λ finished. if finished then some (ok tt, s') else evict fuel s')
        (λ e. some (err e, s'))

  -- A counted future that has ended: the time of one that failed is discarded.
  unfoldable pub observe_future :
      {A : Type 0} → String → Result A → Storage S → Result A × Storage S
  observe_future name (ok a) s = (ok a, timed name (counted name s))
  observe_future name (err e) s = (err e, counted name s)

  -- `??`
  flatten : {A : Type 0} → Result (Result A) → Result A
  flatten (ok r) = r
  flatten (err e) = err e

  await_task : {A : Type 0} → Option ℕ → A → Result A
  await_task none a = ok a
  await_task (some e) a = err e

  -- `join` is whether the task was lost, and its error. The time is recorded where the task
  -- ended, also if the flush in it failed.
  unfoldable pub flush : Option ℕ → Action (Storage S) (Unit {0})
  unfolding observe_future flatten await_task
  flush join s =
      let (res, store') = db.flush s.store in
      let (r, s') = observe_future "flush" (await_task join res) (record s { store = store' }) in
      (flatten r, s')

  -- The gauges of a scrape: the number of blocks and their size, and none if the store fails.
  gauges : Result (ℕ × ℕ) → List (String × ℕ)
  gauges (ok (count, size)) = ("block_store_block_count", count) ∷ ("block_store_size", size) ∷ []
  gauges (err e) = []

  unfoldable pub collect : Storage S → List (String × ℕ) × Storage S
  unfolding gauges
  collect s =
      let (stats, store') = db.get_store_stats s.store in
      (gauges stats, record s { store = store' })
