-- ===== src/Executor/Tasks.antt =====
-- src/executor.rs: which tasks live after a call.
use ipfs_embed.Prelude.{
  ℕ, Bool, true, false, not, ◌&&◌, ◌||◌, none, some, if◌then◌else◌, ◌≡◌, ◌==◌, arith,
}
use ipfs_embed.Executor.{
  Features, Runtime, IsRuntime, JoinHandle, tokio_task, async_task, drop_handle, detach, abort,
}

-- Whether a handle has the task `u`.
abbrev pub is_task : JoinHandle → ℕ → Bool
is_task (tokio_task task) u = u == task
is_task (async_task (some task)) u = u == task
is_task (async_task none) u = false

abbrev pub is_async : JoinHandle → Bool
is_async (tokio_task task) = false
is_async (async_task task) = true

-- A handle of tokio is there only in a build with tokio.
abbrev pub IsBuilt : Features → JoinHandle → Type 0
IsBuilt fs h = fs.tokio || is_async h ≡ true

module _ {W F G R : Type 0} (rt : Runtime W F G R) (laws : IsRuntime rt) where
  pub drop_handle-lives :
      (h : JoinHandle) (w : W) (u : ℕ)
      → rt.lives (drop_handle rt h w) u
        ≡ (if is_task h u && is_async h then false else rt.lives w u)
  unfolding drop_handle
  drop_handle-lives (tokio_task task) w u = ground (arith, laws.tokio_drop_lives task w u)
  drop_handle-lives (async_task (some task)) w u = ground (arith, laws.cancel_lives task w u)
  drop_handle-lives (async_task none) w u = ground arith

  pub abort-lives :
      (fs : Features) (h : JoinHandle) (w : W) (u : ℕ)
      → IsBuilt fs h
      → rt.lives (abort rt fs h w) u
        ≡ (if is_task h u && (is_async h || not fs.async_global) then false else rt.lives w u)
  unfolding abort drop_handle
  abort-lives fs (tokio_task task) w u h = ground (
    arith,
    laws.tokio_drop_lives task w u,
    laws.tokio_drop_lives task (rt.tokio_abort task w) u,
    laws.tokio_abort_lives task w u,
  )
  abort-lives fs (async_task (some task)) w u h = ground (arith, laws.cancel_lives task w u)
  abort-lives fs (async_task none) w u h = ground arith

  pub detach-lives : (h : JoinHandle) (w : W) (u : ℕ) → rt.lives (detach rt h w) u ≡ rt.lives w u
  unfolding detach drop_handle
  detach-lives (tokio_task task) w u = laws.tokio_drop_lives task w u
  detach-lives (async_task (some task)) w u = laws.detach_lives task w u
  detach-lives (async_task none) w u = ground arith
