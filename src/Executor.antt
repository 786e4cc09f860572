-- ===== src/Executor.antt =====
-- src/executor.rs: the tasks that the program spawns, on async-global-executor or on tokio, and the
-- handles that it keeps of them.
pub mod Effects
pub mod Futures
pub mod Tasks
use ipfs_embed.Prelude.{
  ℕ, Bool, true, false, not, ◌&&◌, Option, none, some, if◌then◌else◌, ◌≡◌, ◌==◌,
}
use ipfs_embed.Result.{Result, ok, err}

-- The features that the crate is built with.
pub record Features : Type 0 where
  pub tokio : Bool
  pub async_global : Bool

pub data Executor : Type 0 where
  tokio : Executor
  async_global : Executor

-- `none` does not compile: a build has one of the features.
unfoldable pub new : Features → Option Executor
new fs = if fs.async_global then some async_global else if fs.tokio then some tokio else none

-- What the crates async_global_executor and tokio offer, on a world of type `W`, for futures `F` and
-- closures `G` with a result in `R`. A task is named by a number. `cancel` is the drop of a `Task`
-- of async_global_executor, `tokio_drop` that of a `JoinHandle` of tokio; a poll that is pending
-- gives `none`. `lives` says whether a task has been spawned, has not ended, and has not been told to
-- stop: a task of tokio that is told to stop may run on up to its next `await`, and a blocking one up
-- to its end.
pub record Runtime (W F G R : Type 0) : Type 0 where
  pub lives : W → ℕ → Bool
  pub spawn : F → W → ℕ × W
  pub blocking : G → W → F × W
  pub detach : ℕ → W → W
  pub cancel : ℕ → W → W
  pub poll : ℕ → W → Option R × W
  pub tokio_spawn : F → W → ℕ × W
  pub tokio_spawn_blocking : G → W → ℕ × W
  pub tokio_abort : ℕ → W → W
  pub tokio_drop : ℕ → W → W
  pub tokio_poll : ℕ → W → Option (Result R) × W

pub data JoinHandle : Type 0 where
  tokio_task : ℕ → JoinHandle
  async_task : Option ℕ → JoinHandle

abbrev pub handle : Executor → ℕ → JoinHandle
handle tokio task = tokio_task task
handle async_global task = async_task (some task)

-- `context` makes the error of a lost task, and `detached` is that of a handle without one.
abbrev pub with_context : {R : Type 0} → (ℕ → ℕ) → Option (Result R) → Option (Result R)
with_context context (some (ok r)) = some (ok r)
with_context context (some (err e)) = some (err (context e))
with_context context none = none

abbrev pub ready_ok : {R : Type 0} → Option R → Option (Result R)
ready_ok (some r) = some (ok r)
ready_ok none = none

module _ {W F G R : Type 0} (rt : Runtime W F G R) where
  unfoldable pub spawn : Executor → F → W → JoinHandle × W
  spawn tokio future w = let (task, w') = rt.tokio_spawn future w in (tokio_task task, w')
  spawn async_global future w = let (task, w') = rt.spawn future w in (async_task (some task), w')

  unfoldable pub spawn_blocking : Executor → G → W → JoinHandle × W
  spawn_blocking tokio f w = let (task, w') = rt.tokio_spawn_blocking f w in (tokio_task task, w')
  spawn_blocking async_global f w =
      let (future, w') = rt.blocking f w in
      let (task, w'') = rt.spawn future w' in (async_task (some task), w'')

  -- The drop of a handle.
  unfoldable pub drop_handle : JoinHandle → W → W
  drop_handle (tokio_task task) w = rt.tokio_drop task w
  drop_handle (async_task (some task)) w = rt.cancel task w
  drop_handle (async_task none) w = w

  unfoldable pub detach : JoinHandle → W → W
  unfolding drop_handle
  detach (async_task (some task)) w = rt.detach task w
  detach h w = drop_handle h w

  -- The handle is dropped at the end of the call.
  unfoldable pub abort : Features → JoinHandle → W → W
  unfolding drop_handle
  abort fs (tokio_task task) w =
      let w' = if fs.tokio && not fs.async_global then rt.tokio_abort task w else w in
      drop_handle (tokio_task task) w'
  abort fs h w = drop_handle h w

  unfoldable pub poll : (ℕ → ℕ) → ℕ → JoinHandle → W → Option (Result R) × W
  poll context detached (tokio_task task) w =
      let (r, w') = rt.tokio_poll task w in (with_context context r, w')
  poll context detached (async_task (some task)) w =
      let (r, w') = rt.poll task w in (ready_ok r, w')
  poll context detached (async_task none) w = (some (err detached), w)

  -- What the two crates document of tasks: a new task lives, under a name of its own, and is
  -- told to stop by cancelling or aborting it, which leaves the other tasks alone.
  pub record IsRuntime : Type 0 where
    pub spawn_new : (f : F) (w : W) → rt.lives w (rt.spawn f w).0 ≡ false
    pub spawn_lives :
        (f : F) (w : W) (u : ℕ)
        → rt.lives (rt.spawn f w).1 u ≡ (if u == (rt.spawn f w).0 then true else rt.lives w u)
    pub detach_lives : (t : ℕ) (w : W) (u : ℕ) → rt.lives (rt.detach t w) u ≡ rt.lives w u
    pub cancel_lives :
        (t : ℕ) (w : W) (u : ℕ)
        → rt.lives (rt.cancel t w) u ≡ (if u == t then false else rt.lives w u)
    pub tokio_spawn_new : (f : F) (w : W) → rt.lives w (rt.tokio_spawn f w).0 ≡ false
    pub tokio_spawn_lives :
        (f : F) (w : W) (u : ℕ)
        → rt.lives (rt.tokio_spawn f w).1 u
          ≡ (if u == (rt.tokio_spawn f w).0 then true else rt.lives w u)
    pub tokio_abort_lives :
        (t : ℕ) (w : W) (u : ℕ)
        → rt.lives (rt.tokio_abort t w) u ≡ (if u == t then false else rt.lives w u)
    pub tokio_drop_lives : (t : ℕ) (w : W) (u : ℕ) → rt.lives (rt.tokio_drop t w) u ≡ rt.lives w u
