-- ===== src/Ipfs/Stopping.antt =====
-- src/lib.rs: the clones of a node and their drops, in any order, and when its tasks stop.
use ipfs_embed.Prelude.{
  ℕ, not, some, is_some, ◌≡◌, ◌≢◌, ◌||◌, ◌==◌, ◌&&◌, arith, ◌∙◌, sym, subst, ◌<◌,
}
use ipfs_embed.Result.{ok}
use ipfs_embed.Storage.Opening.{FileSystem, Openers}
use ipfs_embed.Network.Config.{Libp2p}
use ipfs_embed.Network.Setup.{Builders, SwarmLoop}
use ipfs_embed.Executor.{Features, Executor, Runtime, IsRuntime, handle}
use ipfs_embed.Executor
use ipfs_embed.Executor.Futures.{Future}
use ipfs_embed.Ipfs.Start.{Config, Node, new0, clone, drop}
use ipfs_embed.Ipfs.Starting.{AreQuiet, Started, new0-Started}
use ipfs_embed.Ipfs.Lifetime.{is_tokio, IsHeld, drop-IsHeld, clone-IsHeld, ran-IsHeld}

handle-injective : (ex : Executor) {a b : ℕ} → handle ex a ≡ handle ex b → a ≡ b
handle-injective Executor.tokio e = cc
handle-injective Executor.async_global e = cc

module _ {W S K D G R : Type 0} (files : FileSystem W) (db : Openers W S K) (libp2p : Libp2p)
    (lib : Builders W D) (rt : Runtime W (Future S (SwarmLoop D)) G R) (fs : Features)
    (ex : Executor) (c : Config) (gc sw : ℕ) where
  -- A node and the world, after a start that gave it the tasks `gc` and `sw`, and after clones and
  -- drops of its handles, between which anything else runs that neither ends nor
  -- stops these two tasks: other tasks come and go.
  pub data Reach : Node S → W → Type 0 where
    started :
        {n : Node S} {w' : W} (w : W)
        → new0 files db libp2p lib rt fs c ex w ≡ (ok n, w')
        → n.storage.gc_task ≡ some (handle ex gc)
        → n.network.swarm_task ≡ handle ex sw
        → Reach n w'
    cloned : {n : Node S} {w : W} → Reach n w → 0 < n.network_handles → Reach (clone n) w
    dropped :
        {n : Node S} {w : W}
        → Reach n w
        → 0 < n.network_handles
        → Reach (drop rt fs n w).0 (drop rt fs n w).1
    ran :
        {n : Node S} {w w' : W}
        → Reach n w
        → rt.lives w' gc ≡ rt.lives w gc
        → rt.lives w' sw ≡ rt.lives w sw
        → Reach n w'

  module _ (quiet : AreQuiet files db libp2p lib rt) (laws : IsRuntime rt)
      (chosen : Executor.new fs ≡ some ex) where
    Held : Node S → W → Type 0
    Held n w = (o : sw ≢ gc) × IsHeld rt laws fs ex chosen gc sw o (is_some c.network.bitswap) n w

    start-Held :
        (n : Node S) (w w' : W)
        → Started files db libp2p lib rt fs ex c w (ok n, w')
        → n.storage.gc_task ≡ some (handle ex gc)
        → n.network.swarm_task ≡ handle ex sw
        → Held n w'
    unfolding Held
    start-Held n w w' (a, b, differ, f1, f2, grown, s1, s2, one, bits, two) g s =
        let ea : a ≡ gc = handle-injective ex (cc (s1, g)) in
        let eb : b ≡ sw = handle-injective ex (sym s2 ∙ s) in
        (
          λ e. differ (cc (ea, eb, e)),
          record {
            stored = record {
              gc_task = ground (arith, g, two);
              gc_lives = ground (arith, grown gc, ea, two);
            };
            counted = ground (arith, two, one);
            swarm_task = s;
            swarm_lives = ground (arith, grown sw, eb, one);
            holds = ground (arith, grown sw, eb, bits);
          },
        )

    Reach-Held : {n : Node S} {w : W} → Reach n w → Held n w
    unfolding Held
    Reach-Held (started {n} {w'} w e g s) =
        start-Held n w w'
          (subst (Started files db libp2p lib rt fs ex c w) e
            (new0-Started files db libp2p lib rt quiet laws fs ex chosen c w))
          g s
    Reach-Held (cloned {n} {w} r h) =
        let (o, v) = Reach-Held r in (o, clone-IsHeld rt laws fs ex chosen gc sw o _ n w h v)
    Reach-Held (dropped {n} {w} r h) =
        let (o, v) = Reach-Held r in (o, (drop-IsHeld rt laws fs ex chosen gc sw o _ n w h v).0)
    Reach-Held (ran {n} {w} {w'} r same_gc same_sw) =
        let (o, v) = Reach-Held r in
        (o, ran-IsHeld rt laws fs ex chosen gc sw o _ n w w' same_gc same_sw v)

    -- Where the task libraries are as documented, the other packages leave the tasks of the program
    -- alone while a node starts, the executor is the one of the build, and neither of the two tasks
    -- of the node ends by itself or is stopped by others: however the handles of the node are cloned
    -- and dropped, whatever other tasks come and go, its swarm's task is told to stop exactly with
    -- the last handle, or never on tokio; and its collector's task is told to stop exactly with the
    -- last handle, or never on tokio with bitswap enabled.
    pub Reach-lives :
        {n : Node S} {w : W}
        → Reach n w
        → (rt.lives w sw ≡ is_tokio ex || not (n.network_handles == 0))
          × (rt.lives w gc
              ≡ (is_tokio ex && is_some c.network.bitswap) || not (n.network_handles == 0))
    unfolding Held
    Reach-lives r =
        let (o, v) = Reach-Held r in
        (v.swarm_lives, ground (arith, v.stored.gc_lives, v.counted, v.holds, v.swarm_lives))
