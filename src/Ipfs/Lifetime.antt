-- ===== src/Ipfs/Lifetime.antt =====
-- src/lib.rs, src/db.rs, src/net/mod.rs and src/executor.rs: how long the tasks of a node live.
use ipfs_embed.Prelude.{
  ℕ, Bool, true, false, not, ◌&&◌, ◌||◌, none, some, if◌then◌else◌, ◌+◌, ◌-◌, ◌==◌, ◌<◌, ◌≡◌, ◌≢◌,
  arith, refl, Bool-cases, inl, inr, ap, ◌∙◌,
}
use ipfs_embed.Executor.{
  Features, Executor, Runtime, IsRuntime, JoinHandle, tokio_task, async_task, handle, abort,
  drop_handle,
}
use ipfs_embed.Executor
use ipfs_embed.Executor.Tasks.{abort-lives, drop_handle-lives}
use ipfs_embed.Ipfs.Start.{
  Node, drop_inner, drop_storage, settle, drop_network, drop, clone, task_of, lives_task,
}

-- whether the executor is tokio
abbrev pub is_tokio : Executor → Bool
is_tokio Executor.tokio = true
is_tokio Executor.async_global = false

module _ {W G R F : Type 0} (rt : Runtime W F G R) (laws : IsRuntime rt) (fs : Features)
    (ex : Executor) (chosen : Executor.new fs ≡ some ex) (gc : ℕ) where
  pub abort_lem :
      (w : W) (u : ℕ)
      → rt.lives (abort rt fs (handle ex gc) w) u ≡ (if u == gc then false else rt.lives w u)
  unfolding Executor.new
  abort_lem w u =
      elim ex
          as (λ x.
            Executor.new fs ≡ some x
            → rt.lives (abort rt fs (handle x gc) w) u
              ≡ (if u == gc then false else rt.lives w u)) [
                | Executor.tokio ↦
                    λ c. ground (arith, c, abort-lives rt laws fs (tokio_task gc) w u)
                | Executor.async_global ↦
                    λ c. ground (arith, c, abort-lives rt laws fs (async_task (some gc)) w u)
              ]
        chosen

  drop_task_lem :
      (h : JoinHandle) (w : W) (u : ℕ)
      → h ≡ handle ex gc
      → rt.lives (drop_handle rt h w) u
        ≡ (if (u == gc) && not (is_tokio ex) then false else rt.lives w u)
  drop_task_lem h w u e =
      rw e
        (elim ex
          as (λ x.
            rt.lives (drop_handle rt (handle x gc) w) u
            ≡ (if (u == gc) && not (is_tokio x) then false else rt.lives w u)) [
              | Executor.tokio ↦ ground (arith, drop_handle-lives rt laws (tokio_task gc) w u)
              | Executor.async_global ↦
                  ground (arith, drop_handle-lives rt laws (async_task (some gc)) w u)
            ])

  task_lem :
      (h : JoinHandle) (w : W) → h ≡ handle ex gc → lives_task rt (task_of h) w ≡ rt.lives w gc
  unfolding lives_task
  task_lem h w e = rw e (elim ex as (λ x. lives_task rt (task_of (handle x gc)) w ≡ rt.lives w gc) [
    | Executor.tokio ↦ refl
    | Executor.async_global ↦ refl
  ])

module _ {W S G R F : Type 0} (rt : Runtime W F G R) (laws : IsRuntime rt) (fs : Features)
    (ex : Executor) (chosen : Executor.new fs ≡ some ex) (gc sw : ℕ) (other : sw ≢ gc) where
  -- The collector's task lives as long as there is a handle of the storage.
  pub record IsStored (n : Node S) (w : W) : Type 0 where
    pub gc_task : n.storage.gc_task ≡ (if n.storage_handles == 0 then none else some (handle ex gc))
    pub gc_lives : rt.lives w gc ≡ not (n.storage_handles == 0)

  drop_storage_lem :
      (n : Node S) (w : W)
      → IsStored n w
      → 0 < n.storage_handles
      → let (n', w') = drop_storage rt fs n w in
        IsStored n' w'
        × (n'.storage_handles ≡ n.storage_handles - 1)
        × (n'.network ≡ n.network)
        × (n'.network_handles ≡ n.network_handles)
        × (n'.swarm_holds ≡ n.swarm_holds)
        × (rt.lives w' sw ≡ rt.lives w sw)
  unfolding drop_storage drop_inner
  drop_storage_lem n w v h = elim (Bool-cases (n.storage_handles == 1)) [
    | inl e ↦
        let k : n.storage.gc_task ≡ some (handle ex gc) = ground (arith, e, v.gc_task) in
        let aborts = abort_lem rt laws fs ex chosen gc w in
        rw (e, k)
          (
            record { gc_task = refl; gc_lives = ground (arith, aborts gc) },
            ground arith,
            refl,
            refl,
            refl,
            ground (arith, other, aborts sw),
          )
    | inr e ↦ rw e (ground (arith, v.gc_task, v.gc_lives), refl, refl, refl, refl, refl)
  ]

  -- Each handle of the node is one of the network's and one of the storage's, beside the one in the
  -- swarm's loop, and the swarm's task lives as long as there is a handle, or for ever on tokio.
  pub record IsHeld (bits : Bool) (n : Node S) (w : W) : Type 0 where
    pub stored : IsStored n w
    pub counted : n.storage_handles ≡ n.network_handles + (if n.swarm_holds then 1 else 0)
    pub swarm_task : n.network.swarm_task ≡ handle ex sw
    pub swarm_lives : rt.lives w sw ≡ is_tokio ex || not (n.network_handles == 0)
    pub holds : n.swarm_holds ≡ bits && rt.lives w sw

  settle_lem :
      (n : Node S) (w : W)
      → n.network_handles ≡ 0
      → IsStored n w
      → n.storage_handles ≡ (if n.swarm_holds then 1 else 0)
      → n.network.swarm_task ≡ handle ex sw
      → rt.lives w sw ≡ is_tokio ex
      → (bits : Bool) → n.swarm_holds ≡ bits
      → let (n', w') = settle rt fs n w in IsHeld bits n' w' × (n'.network_handles ≡ 0)
  unfolding settle
  settle_lem n w none_ v c t l bits b =
      let e = task_lem rt laws fs ex chosen sw n.network.swarm_task w t in
      let dropped =
        drop_storage_lem (record n { swarm_holds = false }) w
          (record { gc_task = v.gc_task; gc_lives = v.gc_lives }) in
      elim (Bool-cases (n.swarm_holds && not (rt.lives w sw))) [
        | inl yes_ ↦
            let (stored, count, same, handles, held, lives) = dropped (ground (arith, yes_, c)) in
            rw (e, yes_)
              (
                record {
                  stored = stored;
                  counted = ground (arith, count, handles, held, none_, c, yes_);
                  swarm_task = ap (λ s. s.swarm_task) same ∙ t;
                  swarm_lives = ground (arith, lives, handles, none_, l);
                  holds = ground (arith, held, lives, yes_);
                },
                handles ∙ none_,
              )
        | inr no_ ↦
            rw (e, no_)
              (
                record {
                  stored = v;
                  counted = ground (arith, c, none_);
                  swarm_task = t;
                  swarm_lives = ground (arith, l, none_);
                  holds = ground (arith, b, l);
                },
                none_,
              )
      ]

  -- The node in the middle of a drop: a handle of the storage fewer than before.
  drop_network_lem :
      (bits : Bool) (n : Node S) (w : W)
      → 0 < n.network_handles
      → IsStored n w
      → n.storage_handles + 1 ≡ n.network_handles + (if n.swarm_holds then 1 else 0)
      → n.network.swarm_task ≡ handle ex sw
      → rt.lives w sw ≡ true
      → n.swarm_holds ≡ bits
      → let (n', w') = drop_network rt fs n w in
        IsHeld bits n' w' × (n'.network_handles ≡ n.network_handles - 1)
  unfolding drop_network
  drop_network_lem bits n w some_ v c t l b =
      let lives = λ (u : ℕ). drop_task_lem rt laws fs ex chosen sw n.network.swarm_task w u t in
      elim (Bool-cases (n.network_handles == 1)) [
        | inl e ↦
            let (held, gone) =
              settle_lem (record n { network_handles = 0 }) (drop_handle rt n.network.swarm_task w)
                refl
                (record {
                  gc_task = v.gc_task;
                  gc_lives = ground (arith, v.gc_lives, other, lives gc);
                })
                (ground (arith, c, e)) t (ground (arith, l, lives sw)) bits b in
            rw e (held, ground (arith, gone, e))
        | inr e ↦ rw e (
          record {
            stored = record { gc_task = v.gc_task; gc_lives = v.gc_lives };
            counted = ground (arith, some_, c);
            swarm_task = t;
            swarm_lives = ground (arith, l, e, some_);
            holds = ground (arith, b, l);
          },
          refl,
        )
      ]

  pub drop-IsHeld :
      (bits : Bool) (n : Node S) (w : W)
      → 0 < n.network_handles
      → IsHeld bits n w
      → IsHeld bits (drop rt fs n w).0 (drop rt fs n w).1
        × ((drop rt fs n w).0.network_handles ≡ n.network_handles - 1)
  unfolding drop
  drop-IsHeld bits n w h v =
      let (stored, count, same, handles, held, lives) =
        drop_storage_lem n w v.stored (ground (arith, v.counted, h)) in
      let (done, fewer) =
        drop_network_lem bits (drop_storage rt fs n w).0 (drop_storage rt fs n w).1
          (ground (arith, handles, h)) stored (ground (arith, count, handles, held, v.counted, h))
          (ap (λ s. s.swarm_task) same ∙ v.swarm_task) (ground (arith, lives, v.swarm_lives, h))
          (ground (arith, held, v.holds, v.swarm_lives, h)) in
      (done, fewer ∙ ap (λ k. k - 1) handles)

  pub clone-IsHeld :
      (bits : Bool) (n : Node S) (w : W)
      → 0 < n.network_handles
      → IsHeld bits n w
      → IsHeld bits (clone n) w
  unfolding clone
  clone-IsHeld bits n w h v = record {
    stored = record {
      gc_task = ground (arith, v.stored.gc_task, v.counted, h);
      gc_lives = ground (arith, v.stored.gc_lives, v.counted, h);
    };
    counted = ground (arith, v.counted);
    swarm_task = v.swarm_task;
    swarm_lives = ground (arith, v.swarm_lives, h);
    holds = v.holds;
  }

  -- Calls that neither stop a task nor start one.
  pub ran-IsHeld :
      (bits : Bool) (n : Node S) (w w' : W)
      → rt.lives w' gc ≡ rt.lives w gc
      → rt.lives w' sw ≡ rt.lives w sw
      → IsHeld bits n w
      → IsHeld bits n w'
  ran-IsHeld bits n w w' g s v = record {
    stored = record { gc_task = v.stored.gc_task; gc_lives = g ∙ v.stored.gc_lives };
    counted = v.counted;
    swarm_task = v.swarm_task;
    swarm_lives = s ∙ v.swarm_lives;
    holds = ground (arith, v.holds, s);
  }
